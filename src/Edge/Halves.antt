-- ===== src/Edge/Halves.antt =====
-- pkg/edge/edge.go: `handleResumeHalf`, `handleMigrateToRelay` and `splicePair`, from the answer of the
-- matcher on. The byte counters go through int64 and back, which gives each of them unchanged.
pub mod Back
use outrelay_relay.Edge.Pairs.{Pairs, StreamPair, replace_pair, forget_pair}
use outrelay_relay.Edge.Migrated.{MigratedStream, MigratedLru, lookup_migrated, discard}
use outrelay_relay.Common.{ℕ, List, Bytes, Option, Bool, [], some, ◌∷◌, none, true, false}

pub record Half : Type 0 where
  pub stream : ℕ
  pub uri : Bytes
  pub my_pos : ℕ
  pub peer_ack_pos : ℕ

-- `orpv1.StreamResume`
pub record StreamResume : Type 0 where
  pub stream_id : ℕ
  pub my_position : ℕ
  pub peer_ack_position : ℕ

-- What the handler does with its stream: it closes it, it leaves it to the other half's handler, or it
-- splices it with the other half's.
pub data Ending : Type 0 where
  closed : Ending
  left_to_peer : Ending
  spliced_with : ℕ → Ending

-- The ending, the frames with the stream that each goes to, and the pairs while the splice runs.
pub record Resumption : Type 0 where
  pub ending : Ending
  pub writes : List (ℕ × StreamResume)
  pub pairs : Pairs

unfoldable pub echo : ℕ → ℕ → Half → ℕ × StreamResume
echo id dst src =
    (dst, record { stream_id = id; my_position = src.my_pos; peer_ack_position = src.peer_ack_pos })

-- `splicePair` up to the end of the splice; then the pair is forgotten and both streams are closed.
unfoldable pub splice_pair : ℕ → Half → Half → List (ℕ × StreamResume) → Pairs → Resumption
splice_pair id self peer writes pairs = record {
  ending = spliced_with peer.stream;
  writes = writes;
  pairs = replace_pair id (record { consumer_uri = self.uri; provider_uri = peer.uri }) pairs;
}

unfoldable pub end_splice : ℕ → Pairs → Pairs
end_splice id pairs = forget_pair id pairs

-- What the channel gave, and whether this half was made the splicer.
unfoldable pub handle_resume_half : ℕ → Half → Option Half → Bool → Pairs → Resumption
unfolding echo splice_pair
handle_resume_half id half none splicer pairs = record {
  ending = closed;
  writes = [];
  pairs = pairs;
}
handle_resume_half id half (some matched) false pairs = record {
  ending = left_to_peer;
  writes = [];
  pairs = pairs;
}
handle_resume_half id half (some matched) true pairs =
    splice_pair id half matched (echo id half.stream matched ∷ echo id matched.stream half ∷ [])
      pairs

unfoldable pub splice_back : ℕ → Half → Half → Bool → Pairs → Resumption
unfolding splice_pair
splice_back id half matched false pairs = record {
  ending = left_to_peer;
  writes = [];
  pairs = pairs;
}
splice_back id half matched true pairs = splice_pair id half matched [] pairs

unfoldable pub discard_prior : ℕ → Option MigratedStream → MigratedLru → MigratedLru
discard_prior id none m = m
discard_prior id (some prior) m = discard id m

-- `table` is the table of migrated streams when the channel has answered.
unfoldable pub handle_migrate_to_relay :
    ℕ
    → Half
    → Option MigratedStream
    → Option Half
    → Bool
    → Pairs
    → MigratedLru
    → Resumption × MigratedLru
unfolding splice_back discard_prior
handle_migrate_to_relay id half prior none splicer pairs table =
    (record { ending = closed; writes = []; pairs = pairs }, table)
handle_migrate_to_relay id half prior (some matched) splicer pairs table =
    (splice_back id half matched splicer pairs, discard_prior id prior table)

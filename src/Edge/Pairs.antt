-- ===== src/Edge/Pairs.antt =====
-- pkg/edge/edge.go: the two agents of a stream, for the frames that one of them sends to the other.
pub mod Routing
use outrelay_relay.Common.{
  ℕ, none, some, [], ◌∷◌, Bytes, Bool, Dict, Option, if◌then◌else◌, ◌==◌, false, get, ◌&&◌, not,
  true, put, del, nat_eq, bytes_eq,
}
use outrelay_relay.Registry.{Registry, Provider, lookup_agent}

pub record StreamPair : Type 0 where
  pub consumer_uri : Bytes
  pub provider_uri : Bytes

unfoldable pub pair_beq : StreamPair → StreamPair → Bool
pair_beq a b = a.consumer_uri == b.consumer_uri && a.provider_uri == b.provider_uri

abbrev pub Pairs : Type 0
Pairs = Dict ℕ StreamPair

-- `existing, ok := s.pairs[streamID]; ok && existing != p`
unfoldable pub collides : Option StreamPair → StreamPair → Bool
unfolding pair_beq
collides none p = false
collides (some existing) p = not (pair_beq existing p)

unfoldable pub record_pair : ℕ → StreamPair → Pairs → Bool × Pairs
unfolding collides
record_pair stream_id p pairs =
    if stream_id == 0
    then (true, pairs)
    else if collides (get stream_id pairs) p
    then (false, pairs)
    else (true, put stream_id p pairs)

unfoldable pub replace_pair : ℕ → StreamPair → Pairs → Pairs
replace_pair stream_id p pairs = if stream_id == 0 then pairs else put stream_id p pairs

unfoldable pub forget_pair : ℕ → Pairs → Pairs
forget_pair stream_id pairs = if stream_id == 0 then pairs else del stream_id pairs

unfoldable pub other_side : StreamPair → Bytes → Bytes
other_side p caller_uri =
    if caller_uri == p.consumer_uri
    then p.provider_uri
    else if caller_uri == p.provider_uri
    then p.consumer_uri
    else []

unfoldable pub peer_of : ℕ → Bytes → Pairs → Bytes
unfolding other_side
peer_of stream_id caller_uri pairs = elim (get stream_id pairs) [
  | none ↦ []
  | some p ↦ other_side p caller_uri
]

-- The connection that `forwardCandidate` and `forwardCheckpoint` write the frame to.
unfoldable pub route : ℕ → Bytes → Pairs → Registry → Option Provider
unfolding peer_of
route stream_id from_uri pairs reg =
    let peer_uri = peer_of stream_id from_uri pairs in
    if peer_uri == [] then none else lookup_agent peer_uri reg

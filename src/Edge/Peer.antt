-- ===== src/Edge/Peer.antt =====
-- pkg/edge/edge.go: `forwardToPeer`, and `handleForwardedStream` on the peer's side. `parse_tenant`
-- stands for `identity.Parse`; dialing and the answers on the streams are arguments.
pub mod Reach
pub mod Settled
mod Samples
use outrelay_relay.Registry.{
  Registry, Provider, ServiceProvider, ResolveRequest, Remote, Resolution, local,
  err_provider_remote, failed, resolve,
}
use outrelay_relay.Intra.{Pool, get_conn, drop_conn, PeerReply, forward_stream}
use outrelay_relay.Edge.Frames.{
  Write, IncomingStream, incoming_stream, stream_accepted, reject_consumer, write_stream_reject,
}
use outrelay_relay.Edge.Streams.{OpenStream}
use outrelay_relay.Edge.Streams.Answer.{
  Ack, unreadable, stream_accept, stream_reject_frame, other_frame,
}
use outrelay_relay.Common.{
  Bool, ℕ, Option, Bytes, List, false, none, true, if◌then◌else◌, some, ◌∷◌, not, [], codes,
}

-- Whether the consumer's stream is spliced with one to the peer.
pub record Forwarded : Type 0 where
  pub spliced : Bool
  pub writes : List Write
  pub pool : Pool

unfoldable pub with_peer :
    Provider → OpenStream → Remote → (ℕ → PeerReply) → Option ℕ × Pool → Forwarded
with_peer caller o remote reply (none, p) = record {
  spliced = false;
  writes = reject_consumer (some caller) o.stream_id 502 (codes "peer relay unreachable");
  pool = p;
}
with_peer caller o remote reply (some c, p) =
    if forward_stream (reply c) then record { spliced = true; writes = []; pool = p } else record {
      spliced = false;
      writes = reject_consumer (some caller) o.stream_id 502 (codes "peer relay forward failed");
      pool = drop_conn remote.relay_id p;
    }

unfoldable pub forward_to_peer :
    Provider → OpenStream → Remote → Option ℕ → (ℕ → PeerReply) → Pool → Forwarded
unfolding with_peer
forward_to_peer caller o remote dialed reply p =
    with_peer caller o remote reply (get_conn remote.relay_id dialed p)

-- The provider that the peer relay's stream is spliced with, and the frames written on the way.
pub record Served : Type 0 where
  pub provider : Option Provider
  pub writes : List Write

unfoldable pub refuse_peer : ℕ → Bytes → Served
refuse_peer code reason = record { provider = none; writes = write_stream_reject code reason ∷ [] }

unfoldable pub is_accept : Ack → Bool
is_accept stream_accept = true
is_accept _ = false

-- Whether the STREAM_ACCEPT to the peer could be written.
unfoldable pub answer_peer : Provider → Ack → Bool → Served
unfolding refuse_peer is_accept
answer_peer prov ack accept_ok =
    if not (is_accept ack)
    then refuse_peer 503 (codes "provider rejected")
    else if accept_ok
    then record { provider = some prov; writes = stream_accepted ∷ [] }
    else record { provider = none; writes = [] }

unfoldable pub on_resolution :
    (Provider → Bool) → Ack → Bool → List Bytes → IncomingStream → Resolution → Served
unfolding answer_peer
on_resolution opens ack accept_ok successors sent (local prov) =
    if not (opens prov)
    then refuse_peer 502 (codes "provider open failed")
    else (let answer = answer_peer prov ack accept_ok in
        record answer {
          writes =
              incoming_stream prov.conn (record sent { resume_relays = successors })
              ∷ answer.writes;
        })
on_resolution opens ack accept_ok successors sent (err_provider_remote remote) =
    refuse_peer 503 (codes "no local provider for forwarded stream")
on_resolution opens ack accept_ok successors sent (failed err) =
    refuse_peer 503 (codes "no local provider for forwarded stream")

-- From a FORWARD_STREAM frame that was read; the stream is closed without an answer where it was not.
unfoldable pub handle_forwarded :
    (Bytes → Option Bytes)
    → (ResolveRequest → Option (List ServiceProvider))
    → (Provider → Bool)
    → Ack
    → Bool
    → List Bytes
    → Option IncomingStream
    → Registry
    → Served
unfolding on_resolution
handle_forwarded parse_tenant controller opens ack accept_ok successors none reg = record {
  provider = none;
  writes = [];
}
handle_forwarded parse_tenant controller opens ack accept_ok successors (some sent) reg =
    on_resolution opens ack accept_ok successors sent
      (resolve parse_tenant controller sent.source_agent_uri sent.target_service reg)

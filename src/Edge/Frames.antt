-- ===== src/Edge/Frames.antt =====
-- pkg/edge/edge.go: the frames that the relay writes for a stream, with the fields that it fills in. The
-- frame codec is not read here; a frame is told by the connection that it goes to.
use outrelay_relay.Common.{ℕ, Bytes, List, [], ◌∷◌, Option, none, some, if◌then◌else◌, ◌==◌, nat_eq}
use outrelay_relay.Registry.{Provider}

pub record StreamReject : Type 0 where
  pub code : ℕ
  pub reason : Bytes
  pub stream_id : ℕ

pub record IncomingStream : Type 0 where
  pub target_service : Bytes
  pub method : Bytes
  pub source_agent_uri : Bytes
  pub stream_id : ℕ
  pub resume_relays : List Bytes

pub record AllocGranted : Type 0 where
  pub stream_id : ℕ
  pub my_allocation : ℕ
  pub peer_allocation : ℕ
  pub forward_endpoint : Bytes
  pub resume_relays : List Bytes

pub record StreamReady : Type 0 where
  pub stream_id : ℕ
  pub resume_relays : List Bytes

-- A frame on the stream that is answered (`stream_reject`, `stream_accepted`), on a fresh stream of a connection, or on the control
-- stream of a connection.
pub data Write : Type 0 where
  stream_reject : StreamReject → Write
  stream_accepted : Write
  incoming_stream : ℕ → IncomingStream → Write
  ctrl_reject : ℕ → StreamReject → Write
  alloc_granted : ℕ → AllocGranted → Write
  stream_ready : ℕ → StreamReady → Write

unfoldable pub write_stream_reject : ℕ → Bytes → Write
write_stream_reject code reason =
    stream_reject (record { code = code; reason = reason; stream_id = 0 })

-- The caller is `none` for a stream of another relay.
unfoldable pub reject_consumer : Option Provider → ℕ → ℕ → Bytes → List Write
unfolding write_stream_reject
reject_consumer none stream_id code reason = write_stream_reject code reason ∷ []
reject_consumer (some caller) stream_id code reason =
    if stream_id == 0
    then write_stream_reject code reason ∷ []
    else write_stream_reject code reason
      ∷ ctrl_reject caller.conn (record { code = code; reason = reason; stream_id = stream_id })
      ∷ []

-- ===== src/Edge/System.antt =====
-- pkg/edge/edge.go: the relay while it runs. The handlers of all connections and of all streams share the
-- tables of `Server`; an act is what one of them does between two waits, or what reaches the plane or
-- the server from outside. Handlers and connections are told from one another by numbers.
pub mod Acts
pub mod Allocs
pub mod Rows
pub mod Safe
pub mod Calm
pub mod Opening
pub mod Answering
pub mod Ending
pub mod Steps
pub mod Safety
mod Samples
use outrelay_relay.Edge.Pairs.{Pairs}
use outrelay_relay.Audit.{Emitter}
use outrelay_relay.Policy.Engine.{Engine}
use outrelay_relay.Intra.{Pool}
use outrelay_relay.Registry.{Registry}
use outrelay_relay.Edge.Streams.{AuditEvent}
use outrelay_relay.Common.{
  ℕ, List, Dict, Bool, Option, put, some, Bytes, get, [], del, ◌∷◌, ◌++◌, true, nat_eq, none,
}
use outrelay_relay.Policy.Cache.{Cache, CacheKey}
use outrelay_relay.Forward.State.{AddrPort, Plane}
use outrelay_relay.Forward.Register
use outrelay_relay.Forward.Alloc.{gc_once}
use outrelay_relay.Registry.{Provider, DeregisterAgentRequest, RegisterServiceRequest}
use outrelay_relay.Edge.Frames.{
  Write, stream_reject, stream_accepted, incoming_stream, ctrl_reject, alloc_granted, stream_ready,
}
use outrelay_relay.Edge.Migrated.{MigratedLru, MigratedStream}
use outrelay_relay.Edge.Sessions.{Server, detach}
use outrelay_relay.Edge.Handshake.{
  Role, Incoming, Admission, turned_away, peer_relay, agent, serve_conn,
}
use outrelay_relay.Edge.Halves.{Half, handle_resume_half, handle_migrate_to_relay, end_splice}
use outrelay_relay.Edge.Control.Loop.{Tables, TurnClock, ControlFrame, on_control}
use outrelay_relay.Edge.ForwardResume.Grants.{Driven, reissued, crashed, drive_forward_resume}
use outrelay_relay.Edge.Streams.{
  Relay, OpenStream, Waiting, Phase, refused, to_peer, awaiting, Turn, World, open_stream,
}
use outrelay_relay.Edge.Streams.Answer.{Ack, Course, Answered, on_ack, finish}

-- The third-party code that the handlers call.
pub record Outside : Type 0 where
  pub range : Cache → List CacheKey
  pub parse_tenant : Bytes → Option Bytes
  pub parse_role : Bytes → Option Role
  pub controller : RegisterServiceRequest → Option Bytes
  pub split_host_port : Bytes → Option (Bytes × Bytes)
  pub atoi : Bytes → Option ℕ
  pub fwd_endpoint : Bytes

-- `New`; a part that is not configured is `none`.
unfoldable pub new_server :
    Registry
    → Option Engine
    → Option Cache
    → Option (Emitter AuditEvent)
    → Option Pool
    → Option Plane
    → Relay
new_server reg policy cache audit pool fwd = record {
  policy = policy;
  cache = cache;
  audit = audit;
  reg = reg;
  pairs = [];
  forward = fwd;
  pool = pool;
  successors = [];
}

unfoldable pub set_successors : List Bytes → Relay → Relay
set_successors endpoints r = record r { successors = endpoints }

-- A handler of a consumer's stream that waits for the provider, one that goes on with the answer until
-- its deferred calls run, and one that splices two halves that came back, of the stream of this id.
pub data Process : Type 0 where
  waits : Waiting → Process
  runs : Waiting → Course → Process
  splices : ℕ → Half → Half → Process

-- `conns` has every connection that was attached as an agent; a handler may outlive its connection.
-- `resumed` has the allocations that were granted when a forwarded stream was resumed.
pub record System : Type 0 where
  pub relay : Relay
  pub agents : Dict ℕ (Unit {0})
  pub migrated : MigratedLru
  pub sent : List DeregisterAgentRequest
  pub conns : Dict ℕ Provider
  pub streams : Dict ℕ Process
  pub resumed : List ℕ

-- `watches` is a change that the policy watcher makes: any engine and any cache. An act of a stream has the
-- number of its handler first, and one of an agent that of its connection.
pub data Act : Type 0 where
  connects : Incoming → Act
  tracks untracks unregisters releases : ℕ → Act
  opens : ℕ → ℕ → World → OpenStream → Act
  answers : ℕ → Ack → ℕ → ℕ → Bool → Bool → Act
  comes_back : ℕ → ℕ → Half → Half → Act
  demotes : ℕ → ℕ → Half → Half → Option MigratedStream → Act
  ends : ℕ → Act
  control : ℕ → Bytes → TurnClock → ControlFrame → Act
  resumes : ℕ → ℕ → ℕ → ℕ → ℕ → Act
  datagram : Bytes → AddrPort → ℕ → ℕ → Act
  collects : ℕ → Act
  advertises : List Bytes → Act
  watches : Engine → Cache → Act
  ships_audit : Act

abbrev pub server_of : System → Server
server_of s = record {
  agents = s.agents;
  reg = s.relay.reg;
  forward = s.relay.forward;
  sent = s.sent;
}

abbrev pub with_server : Server → System → System
with_server v s = record s {
  relay = record s.relay { reg = v.reg; forward = v.forward };
  agents = v.agents;
  sent = v.sent;
}

abbrev pub tables_of : System → Tables
tables_of s = record {
  reg = s.relay.reg;
  pairs = s.relay.pairs;
  migrated = s.migrated;
  forward = s.relay.forward;
}

abbrev pub with_tables : Tables → System → System
with_tables t s = record s {
  relay = record s.relay { reg = t.reg; pairs = t.pairs; forward = t.forward };
  migrated = t.migrated;
}

abbrev pub with_pairs : Pairs → System → System
with_pairs ps s = record s { relay = record s.relay { pairs = ps } }

abbrev pub with_forward : Option Plane → System → System
with_forward p s = record s { relay = record s.relay { forward = p } }

-- `serveConn` up to `RegisterAgent`; the connection is tracked by an act of its own, since another handler
-- may come between.
unfoldable pub admitted : Admission × Server → System → System
admitted (turned_away, v) s = with_server v s
admitted (peer_relay uri, v) s = with_server v s
admitted (agent ac, v) s =
    let t = with_server (record v { agents = s.agents }) s in
    record t { conns = put ac.conn ac t.conns }

unfoldable pub opened : ℕ → Turn → System → System
opened n t s = elim t.phase [
  | refused ↦ record s { relay = t.relay }
  | to_peer remote ↦ record s { relay = t.relay }
  | awaiting w ↦ record s { relay = t.relay; streams = put n (waits w) s.streams }
]

unfoldable pub answered : ℕ → Waiting → Answered → System → System
answered n w a s = record s { relay = a.relay; streams = put n (runs w a.course) s.streams }

-- What stands after the handler's deferred calls.
unfoldable pub ended : ℕ → Option Process → System → System
ended n none s = s
ended n (some (waits w)) s = s
ended n (some (runs w course)) s = record s {
  relay = finish w course s.relay;
  streams = del n s.streams;
}
ended n (some (splices id self peer)) s =
    let t = with_pairs (end_splice id s.relay.pairs) s in record t { streams = del n s.streams }

unfoldable pub spliced : ℕ → ℕ → Half → Half → Pairs → System → System
spliced n id self peer ps s =
    let t = with_pairs ps s in record t { streams = put n (splices id self peer) s.streams }

-- The allocations that the frames name.
unfoldable pub told_ids : List Write → List ℕ
told_ids [] = []
told_ids (alloc_granted conn g ∷ ws) = g.my_allocation ∷ told_ids ws
told_ids (w ∷ ws) = told_ids ws

unfoldable pub driven : Driven → System → System
unfolding told_ids
driven crashed s = s
driven (reissued writes p) s =
    let t = with_forward (some p) s in record t { resumed = told_ids writes ++ s.resumed }

-- ===== src/Edge/Streams.antt =====
-- pkg/edge/edge.go: `handleConsumerStream` from the OPEN_STREAM frame until it waits for the provider.
-- `range` stands for the order in which Go visits the decision cache, `parse_tenant` for
-- `identity.Parse`.
pub mod Answer
pub mod Allowed
pub mod CalleeSide
pub mod Outcomes
pub mod Told
mod Samples
pub mod Granted
use outrelay_relay.Common.{
  ℕ, Bytes, bytes_eq, Option, none, some, List, [], ◌∷◌, Bool, true, false, codes, if◌then◌else◌,
  not, ◌++◌, ◌||◌, ◌==◌,
}
use outrelay_relay.Audit.{Emitter, emit}
use outrelay_relay.Policy.Rules.{
  Decision, deny, P2pMode, allowed, required, RelayMode, splice, Result, combine_p2p_modes,
}
use outrelay_relay.Policy.Engine.{Engine}
use outrelay_relay.Policy.Cache.{Cache, CacheKey}
use outrelay_relay.Edge.Evaluate.{Clock, evaluate}
use outrelay_relay.Forward.State.{Plane}
use outrelay_relay.Registry.{
  Registry, Provider, ServiceProvider, ResolveRequest, Remote, Resolution, local,
  err_provider_remote, failed, tenant_of, resolve,
}
use outrelay_relay.Intra.{Pool}
use outrelay_relay.Edge.Pairs.{Pairs, StreamPair, record_pair}
use outrelay_relay.Edge.Frames.{Write, IncomingStream, incoming_stream, reject_consumer}

-- The audit event as it is filled in.
pub record AuditEvent : Type 0 where
  pub ts_unix_ms : ℕ
  pub tenant : Bytes
  pub caller : Bytes
  pub target : Bytes
  pub method : Bytes
  pub decision : Decision
  pub reason : Bytes

-- The parts of `Server` that a stream touches; a part that is not configured is `none`.
pub record Relay : Type 0 where
  pub policy : Option Engine
  pub cache : Option Cache
  pub audit : Option (Emitter AuditEvent)
  pub reg : Registry
  pub pairs : Pairs
  pub forward : Option Plane
  pub pool : Option Pool
  pub successors : List Bytes

-- `orpv1.OpenStream`
pub record OpenStream : Type 0 where
  pub target_service : Bytes
  pub method : Bytes
  pub stream_id : ℕ

-- A stream that waits for its provider's answer; `enforced` where a timer watches for the promotion.
pub record Waiting : Type 0 where
  pub caller : Provider
  pub open_frame : OpenStream
  pub provider : Provider
  pub p2p_mode : P2pMode
  pub relay_mode : RelayMode
  pub enforced : Bool

pub data Phase : Type 0 where
  refused : Phase
  to_peer : Remote → Phase
  awaiting : Waiting → Phase

pub record Turn : Type 0 where
  pub phase : Phase
  pub writes : List Write
  pub relay : Relay

abbrev pub is_deny : Decision → Bool
is_deny deny = true
is_deny _ = false

abbrev pub is_required : P2pMode → Bool
is_required required = true
is_required _ = false

-- The clock readings of one check, and that of its audit event.
pub record CheckClock : Type 0 where
  pub evaluated : Clock
  pub audited : ℕ

-- What the world answers while the stream is opened: the readings of both checks, the controller, and
-- whether a fresh stream to the provider could be opened and written to.
pub record World : Type 0 where
  pub caller_clock : CheckClock
  pub callee_clock : CheckClock
  pub controller : ResolveRequest → Option (List ServiceProvider)
  pub opens : Provider → Bool

abbrev pub waiting_for : Provider → OpenStream → Provider → P2pMode → RelayMode → Waiting
waiting_for caller o prov p2p mode = record {
  caller = caller;
  open_frame = o;
  provider = prov;
  p2p_mode = p2p;
  relay_mode = mode;
  enforced = is_required p2p;
}

unfoldable pub reject : Provider → OpenStream → ℕ → Bytes → Relay → Turn
reject caller o code reason r = record {
  phase = refused;
  writes = reject_consumer (some caller) o.stream_id code reason;
  relay = r;
}

unfoldable pub record_stream :
    Provider → OpenStream → Provider → P2pMode → RelayMode → Write → Bool × Pairs → Relay → Turn
unfolding reject
record_stream caller o prov p2p mode sent (false, pairs) r =
    let refusal = reject caller o 409 (codes "stream id collision") r in
    record refusal { writes = sent ∷ refusal.writes }
record_stream caller o prov p2p mode sent (true, pairs) r = record {
  phase = awaiting (waiting_for caller o prov p2p mode);
  writes = sent ∷ [];
  relay = record r { pairs = pairs };
}

-- `OpenIncoming`, then `recordPair`.
unfoldable pub open_incoming :
    World → Provider → OpenStream → Provider → P2pMode → RelayMode → Relay → Turn
unfolding reject record_stream
open_incoming world caller o prov p2p mode r =
    if not (world.opens prov)
    then reject caller o 502 (codes "provider stream open failed") r
    else (let sent = incoming_stream prov.conn (record {
      target_service = o.target_service;
      method = o.method;
      source_agent_uri = caller.uri;
      stream_id = o.stream_id;
      resume_relays = r.successors;
    }) in
        record_stream caller o prov p2p mode sent
          (record_pair o.stream_id (record { consumer_uri = caller.uri; provider_uri = prov.uri })
            r.pairs)
          r)

unfoldable pub after_callee :
    World → Provider → OpenStream → Provider → P2pMode → RelayMode → Option Result × Relay → Turn
unfolding reject open_incoming
after_callee world caller o prov p2p mode (none, r) = open_incoming world caller o prov p2p mode r
after_callee world caller o prov p2p mode (some callee, r) =
    if is_deny callee.decision
    then reject caller o 403 (codes "denied (callee): " ++ callee.reason) r
    else open_incoming world caller o prov (combine_p2p_modes p2p callee.p2p_mode) mode r

abbrev pub callee_key : Provider → OpenStream → Provider → CacheKey
callee_key caller o prov = record { caller = prov.uri; target = caller.uri; method = o.method }

abbrev pub caller_key : Provider → OpenStream → CacheKey
caller_key caller o = record { caller = caller.uri; target = o.target_service; method = o.method }

unfoldable pub has_pool : Option Pool → Bool
has_pool none = false
has_pool (some p) = true

module _ (range : Cache → List CacheKey) (parse_tenant : Bytes → Option Bytes) where
  unfoldable pub record_audit :
      ℕ → CacheKey → Result → Option (Emitter AuditEvent) → Option (Emitter AuditEvent)
  record_audit ts k r none = none
  record_audit ts k r (some e) = some (
      emit
        (record {
          ts_unix_ms = ts;
          tenant = tenant_of parse_tenant k.caller;
          caller = k.caller;
          target = k.target;
          method = k.method;
          decision = r.decision;
          reason = r.reason;
        })
        e)

  unfoldable pub check_with : Engine → CacheKey → CheckClock → Relay → Result × Relay
  unfolding record_audit
  check_with e k t r =
      let (answer, cache) = evaluate range e r.cache k t.evaluated in
      (answer, record r { cache = cache; audit = record_audit t.audited k answer r.audit })

  -- `if s.policy != nil { evaluate, recordAudit }`
  unfoldable pub check : CacheKey → CheckClock → Relay → Option Result × Relay
  unfolding check_with
  check k t r = elim r.policy [
    | none ↦ (none, r)
    | some e ↦ let (answer, checked) = check_with e k t r in (some answer, checked)
  ]

  unfoldable pub after_resolve :
      World → Provider → OpenStream → P2pMode → RelayMode → Resolution → Relay → Turn
  unfolding reject after_callee has_pool
  after_resolve world caller o p2p mode (err_provider_remote remote) r =
      if not (has_pool r.pool) || remote.endpoint == []
      then reject caller o 502 (codes "inter-relay forwarding unavailable") r
      else record { phase = to_peer remote; writes = []; relay = r }
  after_resolve world caller o p2p mode (failed e) r =
      reject caller o 404 (codes "service not found") r
  after_resolve world caller o p2p mode (local prov) r =
      after_callee world caller o prov p2p mode
        (check (callee_key caller o prov) world.callee_clock r)

  unfoldable pub resolve_stream : World → Provider → OpenStream → P2pMode → RelayMode → Relay → Turn
  unfolding after_resolve
  resolve_stream world caller o p2p mode r =
      after_resolve world caller o p2p mode
        (resolve parse_tenant world.controller caller.uri o.target_service r.reg) r

  unfoldable pub after_caller : World → Provider → OpenStream → Option Result × Relay → Turn
  unfolding reject resolve_stream
  after_caller world caller o (none, r) = resolve_stream world caller o allowed splice r
  after_caller world caller o (some dec, r) =
      if is_deny dec.decision
      then reject caller o 403 (codes "denied: " ++ dec.reason) r
      else resolve_stream world caller o dec.p2p_mode dec.relay_mode r

  unfoldable pub open_stream : World → Provider → OpenStream → Relay → Turn
  unfolding after_caller check
  open_stream world caller o r =
      after_caller world caller o (check (caller_key caller o) world.caller_clock r)

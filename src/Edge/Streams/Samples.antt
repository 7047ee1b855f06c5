-- ===== src/Edge/Streams/Samples.antt =====
-- Concrete streams between two agents of one relay.
use outrelay_relay.Policy.Rules.{Rule, allow, deny, allowed, forward, combine_p2p_modes}
use outrelay_relay.Policy.Snapshot.{build_snapshot}
use outrelay_relay.Policy.Engine.{Engine}
use outrelay_relay.Policy.Cache.{key_eq}
use outrelay_relay.Forward.State.{Plane, new_plane}
use outrelay_relay.Forward.Index.{Inv, new_plane-Inv}
use outrelay_relay.Forward.Alloc.{u32_mod}
use outrelay_relay.Forward.Grants.{PairGrant}
use outrelay_relay.Registry.{
  Provider, Registry, ServiceProvider, ResolveRequest, Remote, local, err_provider_remote, resolve,
  lookup_agent,
}
use outrelay_relay.Intra.{new_pool}
use outrelay_relay.Edge.Evaluate.{evaluate}
use outrelay_relay.Edge.Pairs.{forget_pair}
use outrelay_relay.Edge.Frames.{alloc_granted, stream_reject, ctrl_reject}
use outrelay_relay.Edge.Streams.{
  CheckClock, World, Relay, OpenStream, Waiting, Turn, refused, to_peer, awaiting, waiting_for,
  open_stream, callee_key, caller_key, Bytes, ◌∷◌, some, [], ℕ,
}
use outrelay_relay.Edge.Streams.Answer.{stream_accept, forwarding, on_ack, finish}
use outrelay_relay.Edge.Streams.Allowed.{opened_is_allowed}
use outrelay_relay.Edge.Streams.CalleeSide.{callee_check_only_local}
use outrelay_relay.Edge.Streams.Outcomes.{Kept}
use outrelay_relay.Edge.Streams.Told.{refused_is_told}
use outrelay_relay.Edge.Streams.Granted.{granted_pair, finish_releases}
use outrelay_relay.Common.{
  Bytes, ◌∷◌, some, [], keys, ◌≡◌, ◌≢◌, ◌+◌, ℕ, Option, true, none, arith, Elem, ◌<◌, refl, false,
  get, nat_eq,
}

abbrev printer : Bytes
printer = 80 ∷ []

abbrev alice : Provider
alice = record { conn = 1; uri = 65 ∷ [] }

abbrev bob : Provider
bob = record { conn = 2; uri = 66 ∷ [] }

-- A rule that lets anyone use what `pattern` names.
abbrev lets : Bytes → Rule
lets pattern = record {
  id = 1 ∷ [];
  caller_pattern = 42 ∷ [];
  target_pattern = pattern;
  method_pattern = [];
  decision = allow;
  expires_unix_ms = 0;
  p2p_mode = allowed;
  relay_mode = forward;
}

abbrev engine_of : Bytes → Engine
engine_of pattern = record { rules = []; cur = build_snapshot (lets pattern ∷ []) }

abbrev noon : CheckClock
noon = record { evaluated = record { look = 0; decide_ms = 0; evict = 0; stamp = 0 }; audited = 0 }

abbrev tenant : Bytes → Option Bytes
tenant uri = some (84 ∷ [])

abbrev world_of : Bytes → World
world_of relay_id = record {
  caller_clock = noon;
  callee_clock = noon;
  controller = λ request.
      some (record { relay_id = relay_id; relay_endpoint = 7 ∷ []; agent_uri = bob.uri } ∷ []);
  opens = λ prov. true;
}

abbrev here : World
here = world_of (9 ∷ [])

abbrev there : World
there = world_of (8 ∷ [])

abbrev reg : Registry
reg = record {
  relay_id = 9 ∷ [];
  region = [];
  agent_conns = (65 ∷ [], alice) ∷ (66 ∷ [], bob) ∷ [];
}

abbrev relay_of : Engine → Relay
relay_of e = record {
  policy = some e;
  cache = none;
  audit = none;
  reg = reg;
  pairs = [];
  forward = some new_plane;
  pool = some new_pool;
  successors = [];
}

abbrev asks : OpenStream
asks = record { target_service = printer; method = []; stream_id = 5 }

-- Everything is allowed, or the caller's side alone.
abbrev open_door : Engine
open_door = engine_of (42 ∷ [])

abbrev half_open : Engine
half_open = engine_of printer

abbrev waits : Waiting
waits = waiting_for alice asks bob allowed forward

opens_here : (open_stream keys tenant here alice asks (relay_of open_door)).phase ≡ awaiting waits
unfolding open_stream evaluate outrelay_relay.Policy.Engine.engine_decide
    outrelay_relay.Policy.Snapshot.decide get build_snapshot
    outrelay_relay.Policy.Glob.contains_star outrelay_relay.Policy.Snapshot.rule_applies
    outrelay_relay.Policy.Glob.match_glob outrelay_relay.Common.bytes_beq resolve
    outrelay_relay.Registry.tenant_of outrelay_relay.Edge.Pairs.record_pair combine_p2p_modes
opens_here = refl

opened_example :
    let first = evaluate keys open_door none (caller_key alice asks) noon.evaluated in
    let second = evaluate keys open_door first.1 (callee_key alice asks bob) noon.evaluated in
    (resolve tenant here.controller alice.uri printer reg ≡ local bob)
    × (first.0.decision ≢ deny)
    × (second.0.decision ≢ deny)
    × (waits
        ≡ waiting_for alice asks bob
            (combine_p2p_modes first.0.p2p_mode second.0.p2p_mode)
            first.0.relay_mode)
opened_example =
    opened_is_allowed here alice asks waits keys tenant open_door (relay_of open_door) refl
      opens_here

abbrev remote_bob : Remote
remote_bob = record { relay_id = 8 ∷ []; endpoint = 7 ∷ []; agent_uri = bob.uri }

near : resolve tenant here.controller alice.uri printer reg ≡ local bob
unfolding resolve outrelay_relay.Common.bytes_beq outrelay_relay.Registry.tenant_of
    outrelay_relay.Common.get
near = refl

far : resolve tenant there.controller alice.uri printer reg ≡ err_provider_remote remote_bob
unfolding resolve outrelay_relay.Common.bytes_beq outrelay_relay.Registry.tenant_of
far = refl

remote_named : remote_bob.endpoint ≢ []
remote_named h = ground (arith, h)

allowed_first :
    (evaluate keys half_open none (caller_key alice asks) noon.evaluated).0.decision ≡ allow
unfolding evaluate outrelay_relay.Policy.Engine.engine_decide outrelay_relay.Policy.Snapshot.decide
    get build_snapshot outrelay_relay.Policy.Glob.contains_star outrelay_relay.Common.put
    outrelay_relay.Common.bytes_beq outrelay_relay.Policy.Snapshot.rule_applies
    outrelay_relay.Policy.Glob.match_glob
allowed_first = refl

fine : (evaluate keys half_open none (caller_key alice asks) noon.evaluated).0.decision ≢ deny
fine h = ground (arith, h, allowed_first)

denied : (evaluate keys half_open none (callee_key alice asks bob) noon.evaluated).0.decision ≡ deny
unfolding evaluate outrelay_relay.Policy.Engine.engine_decide outrelay_relay.Policy.Snapshot.decide
    get build_snapshot outrelay_relay.Policy.Glob.contains_star outrelay_relay.Common.put
    outrelay_relay.Common.bytes_beq
denied = refl

callee_example :
    ((open_stream keys tenant here alice asks (relay_of half_open)).phase ≡ refused)
    × ((open_stream keys tenant there alice asks (relay_of half_open)).phase ≡ to_peer remote_bob)
unfolding outrelay_relay.Edge.Streams.has_pool evaluate
callee_example =
    callee_check_only_local keys tenant alice asks (relay_of half_open) half_open refl here there
      bob remote_bob refl near far refl remote_named fine denied

refused_here : (open_stream keys tenant here alice asks (relay_of half_open)).phase ≡ refused
unfolding open_stream evaluate outrelay_relay.Policy.Engine.engine_decide
    outrelay_relay.Policy.Snapshot.decide get build_snapshot
    outrelay_relay.Policy.Glob.contains_star outrelay_relay.Common.put
    outrelay_relay.Common.bytes_beq outrelay_relay.Policy.Snapshot.rule_applies
    outrelay_relay.Policy.Glob.match_glob resolve outrelay_relay.Registry.tenant_of
refused_here = refl

refused_is_told_example :
    let t = open_stream keys tenant here alice asks (relay_of half_open) in
    (code : ℕ) × (reason : Bytes) × Elem
      (stream_reject (record { code = code; reason = reason; stream_id = 0 }))
      t.writes
    × Elem (ctrl_reject 1 (record { code = code; reason = reason; stream_id = 5 })) t.writes
    × Kept (relay_of half_open) t.relay
refused_is_told_example =
    refused_is_told keys tenant here alice asks (relay_of half_open) (omega arith) refused_here

alice_named : alice.uri ≢ []
alice_named h = ground (arith, h)

bob_named : bob.uri ≢ []
bob_named h = ground (arith, h)

room : new_plane.next_id + 2 < u32_mod
unfolding new_plane
room = omega arith

bob_found : lookup_agent bob.uri reg ≡ some bob
unfolding lookup_agent outrelay_relay.Common.get outrelay_relay.Common.bytes_beq
bob_found = refl

granted_pair_example :
    let r = relay_of open_door in
    (c : ℕ) × (d : ℕ) × (q : Plane) × PairGrant new_plane alice.uri bob.uri c d q
    × (on_ack (3 ∷ []) waits stream_accept 10 11 true true r ≡ record {
      course = forwarding c d;
      writes =
          alloc_granted 1 (record {
            stream_id = 5;
            my_allocation = c;
            peer_allocation = d;
            forward_endpoint = 3 ∷ [];
            resume_relays = [];
          })
          ∷ alloc_granted 2 (record {
            stream_id = 5;
            my_allocation = d;
            peer_allocation = c;
            forward_endpoint = 3 ∷ [];
            resume_relays = [];
          })
          ∷ [];
      relay = record r { forward = some q };
    })
granted_pair_example =
    granted_pair (3 ∷ []) waits (relay_of open_door) new_plane 10 11 refl new_plane-Inv alice_named
      room bob refl bob_found bob_named

only_bob : (prov : Provider) → lookup_agent bob.uri reg ≡ some prov → prov.uri ≢ []
only_bob prov found = ground (arith, found, bob_found, bob_named)

finish_example :
    let r = relay_of open_door in
    let a = on_ack (3 ∷ []) waits stream_accept 10 11 true false r in
    let s = finish waits a.course a.relay in
    (s.pairs ≡ forget_pair 5 [])
    × ((q : Plane) × (s.forward ≡ some q)
        × Inv q
        × ((i : ℕ) → get i q.by_alloc ≡ get i new_plane.by_alloc))
finish_example =
    finish_releases (3 ∷ []) waits (relay_of open_door) new_plane 10 11 refl new_plane-Inv
      alice_named room only_bob stream_accept true false

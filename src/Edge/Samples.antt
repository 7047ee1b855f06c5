-- ===== src/Edge/Samples.antt =====
-- Concrete connections, streams and policy checks.
use outrelay_relay.Common.{
  ℕ, none, some, [], ◌∷◌, ◌≡◌, ◌≢◌, refl, inl, Bytes, keys, arith, get, ◌⊎◌, ◌<◌, ◌+◌, true, false,
  List, Elem, Option, ◌↔◌, nat_eq, if◌then◌else◌, bytes_eq, ◌&&◌, ◌==◌,
}
use outrelay_relay.Forward.State.{Plane, new_plane}
use outrelay_relay.Forward.Index.{new_plane-Inv}
use outrelay_relay.Forward.Release.{forgotten}
use outrelay_relay.Registry.{Provider, Registry, lookup_agent}
use outrelay_relay.Policy.Engine.{new_engine}
use outrelay_relay.Policy.Cache.{CacheKey, key_eq, cache_ttl}
use outrelay_relay.Policy.Wire.{Constants, PolicyEvent}
use outrelay_relay.Edge.Evaluate.{Clock, decide_at, evaluate}
use outrelay_relay.Edge.Evaluate.Current
use outrelay_relay.Edge.Evaluate.Current.{evaluate_step, event_step, evaluate_is_current}
use outrelay_relay.Edge.Sessions
use outrelay_relay.Edge.Sessions.{Server, Call, registers, tracks, untracks, attach, detach}
use outrelay_relay.Edge.Sessions.Phases.{Named, InOrder, Serves, phase_of}
use outrelay_relay.Edge.Sessions.Liveness.{lookup_is_live, late_detach_loses_agent}
use outrelay_relay.Edge.Resume.{
  ResumeMatcher, HalfStream, new_resume_matcher, waiting, resumed, submit, watch, receive, readable,
  Run, stay, then_step, submits, receives, fresh_half,
}
use outrelay_relay.Edge.Resume.Pairing.{resumed_same_stream}
use outrelay_relay.Edge.Resume.Stolen.{IsParked, match_is_stolen}

abbrev pb : Constants
pb = record {
  decision_deny = 2;
  p2p_forbidden = 1;
  p2p_required = 2;
  relay_mode_forward = 1;
  kind_added = 1;
  kind_removed = 2;
  kind_snapshot_end = 3;
}

abbrev question : CacheKey
question = record { caller = 1 ∷ []; target = 2 ∷ []; method = [] }

abbrev at_ten : Clock
at_ten = record { look = 10; decide_ms = 0; evict = 11; stamp = 12 }

abbrev at_twenty : Clock
at_twenty = record { look = 20; decide_ms = 0; evict = 21; stamp = 22 }

abbrev end_event : PolicyEvent
end_event = record { kind = 3; rule = none; removed_id = [] }

abbrev checks : List Current.Step
checks = evaluate_step question at_ten ∷ event_step end_event ∷ []

evaluate_example :
    let w = Current.after pb keys keys new_engine checks in
    let r = (evaluate keys w.engine (some w.cache) question at_twenty).0 in
    (r ≡ decide_at w.engine question at_twenty)
    ⊎ ((early : Clock) × Elem (evaluate_step question early) checks
        × (r ≡ decide_at w.engine question early)
        × (at_twenty.look < early.stamp + cache_ttl))
evaluate_example = evaluate_is_current pb keys keys new_engine checks question at_twenty

abbrev bob : Bytes
bob = 66 ∷ []

abbrev old_conn : Provider
old_conn = record { conn = 1; uri = bob }

abbrev new_conn : Provider
new_conn = record { conn = 2; uri = bob }

abbrev no_tenant_name : Bytes → Option Bytes
no_tenant_name uri = none

abbrev idle_server : Server
idle_server = record {
  agents = [];
  reg = record { relay_id = 9 ∷ []; region = []; agent_conns = [] };
  forward = some new_plane;
  sent = [];
}

-- Bob comes back before the end of his former connection is through: it has not been unregistered yet.
abbrev bob_comes_back : List Call
bob_comes_back =
    tracks new_conn
    ∷ registers new_conn
    ∷ untracks old_conn
    ∷ tracks old_conn
    ∷ registers old_conn
    ∷ []

bob_found :
    lookup_agent bob (Sessions.after no_tenant_name bob_comes_back idle_server).reg ≡ some new_conn
unfolding Sessions.after lookup_agent get outrelay_relay.Registry.register_agent
    outrelay_relay.Common.put outrelay_relay.Common.bytes_beq
bob_found = refl

in_order : InOrder (λ conn. bob) bob_comes_back
unfolding phase_of
in_order = ((refl, refl), ((refl, refl), ((refl, refl), ((refl, refl), ((refl, refl), tt)))))

lookup_is_live_example :
    (new_conn.uri ≡ bob)
    × Named (λ conn. bob) new_conn
    × Serves
        (phase_of 2 bob_comes_back)
        (get 2 (Sessions.after no_tenant_name bob_comes_back idle_server).agents)
lookup_is_live_example =
    lookup_is_live no_tenant_name (λ conn. bob) bob_comes_back idle_server refl in_order bob
      new_conn bob_found

bob_named : bob ≢ []
bob_named h = ground (arith, h)

late_detach_example :
    let left = detach no_tenant_name old_conn (attach new_conn idle_server) in
    (get 2 left.agents ≡ some tt)
    × (lookup_agent bob left.reg ≡ none)
    × (q : Plane) × (left.forward ≡ some q)
    × ((id : ℕ) → get id q.by_alloc ≡ forgotten bob (get id new_plane.by_alloc))
late_detach_example =
    late_detach_loses_agent no_tenant_name old_conn new_conn idle_server new_plane refl
      (omega arith) bob_named refl new_plane-Inv

-- The first half of stream 7 is parked, as half 1.
abbrev parked : ResumeMatcher
parked = submit 1 7 new_resume_matcher

abbrev parked_half : HalfStream
parked_half = record (fresh_half 7) { watched = true }

parked-IsParked : IsParked 1 parked_half parked
unfolding submit new_resume_matcher readable get outrelay_relay.Common.put
parked-IsParked = record {
  found = refl;
  waits = refl;
  watched = refl;
  open_empty = refl;
  parked = refl;
  once = λ id e. ground arith;
}

parked_fresh : get 2 parked.halves ≡ none
unfolding submit new_resume_matcher get outrelay_relay.Common.put
parked_fresh = refl

match_is_stolen_example :
    Run parked (watch 1 (submit 2 7 parked))
    × (x : HalfStream) × (get 1 (watch 1 (submit 2 7 parked)).halves ≡ some x)
    × (x.handler ≡ waiting)
    × (readable x ≡ false)
match_is_stolen_example =
    match_is_stolen 1 2 parked_half parked (watch 1 (submit 2 7 parked)) parked-IsParked
      parked_fresh (stay (watch 1 (submit 2 7 parked)))

-- Both halves arrive and the second one's handler reads its peer.
abbrev matched : ResumeMatcher
matched = submit 2 7 parked

abbrev second_half : HalfStream
second_half = record (fresh_half 7) { splicer = true; message = some 1 }

second_found : get 2 matched.halves ≡ some second_half
unfolding submit new_resume_matcher get outrelay_relay.Common.put
second_found = refl

resumed-Run : Run new_resume_matcher (receive 2 matched)
unfolding readable new_resume_matcher get
resumed-Run =
    then_step new_resume_matcher matched (receive 2 matched)
      (then_step new_resume_matcher parked matched
        (then_step new_resume_matcher new_resume_matcher parked (stay new_resume_matcher)
          (submits 1 7 new_resume_matcher refl))
        (submits 2 7 parked parked_fresh))
      (receives 2 second_half matched second_found refl refl)

abbrev resumed_half : HalfStream
resumed_half = record second_half { message = none; handler = resumed 1 }

resumed_found : get 2 (receive 2 matched).halves ≡ some resumed_half
unfolding receive get submit new_resume_matcher outrelay_relay.Common.put
resumed_found = refl

resumed_same_stream_example :
    (y : HalfStream) × (get 1 (receive 2 matched).halves ≡ some y) × (y.id ≡ 7)
resumed_same_stream_example =
    resumed_same_stream (receive 2 matched) 2 1 resumed_half resumed-Run resumed_found refl

-- ===== src/Edge/System/Samples.antt =====
-- A relay that `main` sets up, and a run of it in which one agent's stream to another is forwarded.
use outrelay_relay.Common.{
  ℕ, Bytes, Option, none, some, List, [], ◌∷◌, ◌≡◌, ◌≢◌, ◌⊎◌, ◌*◌, ◌<◌, inl, inr, refl, arith, Bool,
  true, false, get, nat_eq, bytes_eq, Elem, All, length, keys, if◌then◌else◌, ◌==◌,
}
use outrelay_relay.Policy.Rules.{Rule, allow, allowed, forward}
use outrelay_relay.Policy.Snapshot.{build_snapshot}
use outrelay_relay.Policy.Engine.{Engine, new_engine}
use outrelay_relay.Policy.Cache.{key_eq, new_cache}
use outrelay_relay.Audit.{new_emitter}
use outrelay_relay.Intra.{new_pool}
use outrelay_relay.Forward.State.{Plane, AllocEntry, new_plane}
use outrelay_relay.Forward.Index.{Inv}
use outrelay_relay.Forward.Alloc.{u32_mod}
use outrelay_relay.Registry.{Provider, Registry, new_registry}
use outrelay_relay.Registry.Fleet.{RelayInstance, successors}
use outrelay_relay.Edge.Pairs.{StreamPair}
use outrelay_relay.Edge.Handshake.{Role, other_role, Incoming}
use outrelay_relay.Edge.Streams.{CheckClock, World, Relay, OpenStream, Waiting, waiting_for}
use outrelay_relay.Edge.Streams.Answer.{stream_accept, Course, forwarding, crashes}
use outrelay_relay.Edge.System.{
  Outside, Process, System, Act, connects, opens, answers, watches, new_server, set_successors,
  runs,
}
use outrelay_relay.Edge.System.Acts.{run, fresh_system}
use outrelay_relay.Edge.System.Allocs.{ids_of, agents_of}
use outrelay_relay.Edge.System.Rows.{stream_of, names_of}
use outrelay_relay.Edge.System.Safety.{
  allocations_are_held, holders_are_apart, pairs_are_served, no_handler_panics,
}
use outrelay_relay.Start.Tls.{listening, intra_tls, insecure}
use outrelay_relay.Start.Setup.Configured.{Guarded, Equipped, serving_is_configured}
use outrelay_relay.Registry.Fleet.{on_successors, new_heartbeat}
use outrelay_relay.Start.{or_listen}
use outrelay_relay.Start.Setup.{default_flags, Flags, Surroundings, Service, start, serves}

abbrev alice : Bytes
alice = 65 ∷ []

abbrev bob : Bytes
bob = 66 ∷ []

abbrev flags : Flags
flags = record default_flags {
  listen = 9 ∷ [];
  listen_forward = 5 ∷ [];
  cert_path = 1 ∷ [];
  key_path = 2 ∷ [];
  ca_path = 3 ∷ [];
  region = 4 ∷ [];
  policy_tenant = 84 ∷ [];
}

abbrev surroundings : Surroundings
surroundings = record {
  key_pair = some 1;
  ca_pem = some (7 ∷ []);
  append_certs = λ pem. some 2;
  client_made = true;
  upsert = λ id region endpoint. some [];
  forward_bound = λ address. true;
}

abbrev unsorted : List RelayInstance → List RelayInstance
unsorted rs = rs

abbrev service : Service
service = record {
  relay = set_successors (successors unsorted (9 ∷ []) (4 ∷ []) []) (
      new_server (new_registry (9 ∷ []) (4 ∷ [])) (some new_engine) (some new_cache)
        (some new_emitter) (some new_pool) (some new_plane));
  listens = listening 1 2;
  dials = intra_tls (listening 1 2);
  creds = insecure;
  heartbeat =
      on_successors 0
        (new_heartbeat (9 ∷ []) (4 ∷ []) (or_listen flags.advertised flags.listen) flags.heartbeat);
}

starts : start unsorted flags surroundings ≡ serves service
unfolding default_flags start outrelay_relay.Start.Setup.when_tenant outrelay_relay.Start.or_listen
    outrelay_relay.Common.bytes_beq outrelay_relay.Start.Tls.load_server_tls
    outrelay_relay.Start.Tls.controller_creds
starts = refl

-- The third-party code; every name but the empty one is an agent's.
abbrev outside : Outside
outside = record {
  range = keys;
  parse_tenant = λ uri. some (84 ∷ []);
  parse_role = λ uri. if uri == [] then none else some other_role;
  controller = λ request. none;
  split_host_port = λ addr. none;
  atoi = λ port. none;
  fwd_endpoint = 6 ∷ [];
}

abbrev comes : ℕ → Bytes → Act
comes conn uri =
    connects (record {
      conn = conn;
      certificates = (uri ∷ []) ∷ [];
      hello = some uri;
      acknowledged = true;
    })

-- A rule that lets anyone forward to anything.
abbrev lets_all : Rule
lets_all = record {
  id = 1 ∷ [];
  caller_pattern = 42 ∷ [];
  target_pattern = 42 ∷ [];
  method_pattern = [];
  decision = allow;
  expires_unix_ms = 0;
  p2p_mode = allowed;
  relay_mode = forward;
}

abbrev noon : CheckClock
noon = record { evaluated = record { look = 0; decide_ms = 0; evict = 0; stamp = 0 }; audited = 0 }

abbrev world : World
world = record {
  caller_clock = noon;
  callee_clock = noon;
  controller =
      λ request. some (record { relay_id = 9 ∷ []; relay_endpoint = 9 ∷ []; agent_uri = bob } ∷ []);
  opens = λ prov. true;
}

abbrev asks : OpenStream
asks = record { target_service = 80 ∷ []; method = []; stream_id = 5 }

abbrev acts : List Act
acts =
    answers 7 stream_accept 10 11 true true
    ∷ opens 7 1 world asks
    ∷ watches (record { rules = []; cur = build_snapshot (lets_all ∷ []) }) []
    ∷ comes 2 bob
    ∷ comes 1 alice
    ∷ []

abbrev after : System
after = run outside acts (fresh_system service.relay)

abbrev waiting : Waiting
waiting =
    waiting_for (record { conn = 1; uri = alice }) asks (record { conn = 2; uri = bob }) allowed
      forward

handler_runs : get 7 after.streams ≡ some (runs waiting (forwarding 1 2))
unfolding default_flags run start get outrelay_relay.Edge.System.Acts.watch_as
    outrelay_relay.Edge.Handshake.serve_conn outrelay_relay.Common.bytes_beq
    outrelay_relay.Common.put new_server outrelay_relay.Edge.Streams.open_stream
    outrelay_relay.Edge.Evaluate.evaluate outrelay_relay.Policy.Cache.cache_get
    outrelay_relay.Policy.Cache.cache_put outrelay_relay.Policy.Engine.engine_decide
    outrelay_relay.Policy.Snapshot.decide build_snapshot outrelay_relay.Policy.Glob.contains_star
    outrelay_relay.Policy.Snapshot.rule_applies outrelay_relay.Policy.Glob.match_glob
    outrelay_relay.Registry.resolve outrelay_relay.Registry.tenant_of
    outrelay_relay.Edge.Pairs.record_pair outrelay_relay.Policy.Rules.combine_p2p_modes new_emitter
    outrelay_relay.Audit.emit outrelay_relay.Edge.Streams.Answer.on_ack
    outrelay_relay.Registry.lookup_agent outrelay_relay.Forward.Alloc.allocate new_plane new_cache
    set_successors new_registry outrelay_relay.Edge.Sessions.attach
    outrelay_relay.Registry.register_agent outrelay_relay.Edge.Sessions.track_agent successors
    outrelay_relay.Policy.Cache.key_beq
handler_runs = refl

paired : get 5 after.relay.pairs ≡ some (record { consumer_uri = alice; provider_uri = bob })
unfolding default_flags run start get outrelay_relay.Edge.System.Acts.watch_as
    outrelay_relay.Edge.Handshake.serve_conn outrelay_relay.Common.bytes_beq
    outrelay_relay.Common.put new_server outrelay_relay.Edge.Streams.open_stream
    outrelay_relay.Edge.Evaluate.evaluate outrelay_relay.Policy.Cache.cache_get
    outrelay_relay.Policy.Cache.cache_put outrelay_relay.Policy.Engine.engine_decide
    outrelay_relay.Policy.Snapshot.decide build_snapshot outrelay_relay.Policy.Glob.contains_star
    outrelay_relay.Policy.Snapshot.rule_applies outrelay_relay.Policy.Glob.match_glob
    outrelay_relay.Registry.resolve outrelay_relay.Registry.tenant_of
    outrelay_relay.Edge.Pairs.record_pair outrelay_relay.Policy.Rules.combine_p2p_modes new_emitter
    outrelay_relay.Audit.emit outrelay_relay.Edge.Streams.Answer.on_ack
    outrelay_relay.Registry.lookup_agent outrelay_relay.Forward.Alloc.allocate new_plane new_cache
    set_successors new_registry outrelay_relay.Edge.Sessions.attach
    outrelay_relay.Registry.register_agent outrelay_relay.Edge.Sessions.track_agent successors
    outrelay_relay.Policy.Cache.key_beq
paired = refl

abbrev plane_in : Option Plane → Plane
plane_in none = new_plane
plane_in (some p) = p

plane_on : after.relay.forward ≡ some (plane_in after.relay.forward)
unfolding default_flags run start get outrelay_relay.Edge.System.Acts.watch_as
    outrelay_relay.Edge.Handshake.serve_conn outrelay_relay.Common.bytes_beq
    outrelay_relay.Common.put new_server outrelay_relay.Edge.Streams.open_stream
    outrelay_relay.Edge.Evaluate.evaluate outrelay_relay.Policy.Cache.cache_get
    outrelay_relay.Policy.Cache.cache_put outrelay_relay.Policy.Engine.engine_decide
    outrelay_relay.Policy.Snapshot.decide build_snapshot outrelay_relay.Policy.Glob.contains_star
    outrelay_relay.Policy.Snapshot.rule_applies outrelay_relay.Policy.Glob.match_glob
    outrelay_relay.Registry.resolve outrelay_relay.Registry.tenant_of
    outrelay_relay.Edge.Pairs.record_pair outrelay_relay.Policy.Rules.combine_p2p_modes new_emitter
    outrelay_relay.Audit.emit outrelay_relay.Edge.Streams.Answer.on_ack
    outrelay_relay.Registry.lookup_agent outrelay_relay.Forward.Alloc.allocate new_plane new_cache
    set_successors new_registry outrelay_relay.Edge.Sessions.attach
    outrelay_relay.Registry.register_agent outrelay_relay.Edge.Sessions.track_agent successors
    outrelay_relay.Policy.Cache.key_beq
plane_on = refl

no_name : outside.parse_role [] ≡ none
unfolding outrelay_relay.Common.bytes_beq
no_name = refl

few : 2 * length acts < u32_mod
few = omega arith

abbrev plane : Plane
plane = plane_in after.relay.forward

allocations_are_held_example :
    Inv plane
    × ((id : ℕ) (entry : AllocEntry)
        → get id plane.by_alloc ≡ some entry
        → ((n : ℕ) × (x : Process) × (get n after.streams ≡ some x)
            × Elem id (ids_of x)
            × Elem entry.uri (agents_of x))
          ⊎ Elem id after.resumed)
allocations_are_held_example =
    allocations_are_held unsorted flags surroundings service starts outside no_name acts
      (omega arith) few plane plane_on

holders_are_apart_example :
    (Elem {A = ℕ} 1 (2 ∷ 1 ∷ []) → ◌≡◌ {A = ℕ} 7 7) × (Elem {A = ℕ} 1 after.resumed → ⊥)
holders_are_apart_example =
    holders_are_apart unsorted flags surroundings service starts outside no_name acts (omega arith)
      few 7 7 (runs waiting (forwarding 1 2)) (runs waiting (forwarding 1 2)) 1 handler_runs
      handler_runs (inr (inl refl))

pairs_are_served_example :
    let p : StreamPair = record { consumer_uri = alice; provider_uri = bob } in
    (◌≢◌ {A = ℕ} 5 0)
    × ((n : ℕ) × (x : Process) × (get n after.streams ≡ some x)
        × (stream_of x ≡ 5)
        × (names_of x ≡ p))
pairs_are_served_example =
    pairs_are_served unsorted flags surroundings service starts outside no_name acts (omega arith)
      few 5 (record { consumer_uri = alice; provider_uri = bob }) paired

no_handler_panics_example : forwarding 1 2 ≢ crashes
no_handler_panics_example =
    no_handler_panics unsorted flags surroundings service starts outside no_name acts (omega arith)
      few 7 waiting (forwarding 1 2) handler_runs

serving_is_configured_example :
    (flags.cert_path ≢ [])
    × (flags.key_path ≢ [])
    × (flags.ca_path ≢ [])
    × Guarded flags surroundings service
    × Equipped flags service
serving_is_configured_example = serving_is_configured unsorted flags surroundings service starts

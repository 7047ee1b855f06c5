-- ===== src/Edge/System/Safety.antt =====
-- pkg/edge/edge.go: what holds of a relay that was set up by `main`, whatever its handlers do and in whatever
-- order.
use outrelay_relay.Common.{
  ℕ, ◌*◌, ◌<◌, Option, none, some, List, [], ◌≡◌, ◌≢◌, ◌⊎◌, inl, inr, arith, get, refl, nat_eq,
  bytes_eq, subst, sym, ap, Elem, All, length, eq_iff, ◌==◌, Bool-cases, ◌∙◌,
}
use outrelay_relay.Registry.{lookup_agent}
use outrelay_relay.Registry.Fleet.{RelayInstance}
use outrelay_relay.Forward.State.{Plane, new_plane, AllocEntry}
use outrelay_relay.Forward.Alloc.{u32_mod}
use outrelay_relay.Forward.Views.{owner_at}
use outrelay_relay.Forward.Index.{Inv, new_plane-Inv}
use outrelay_relay.Edge.Pairs.{StreamPair}
use outrelay_relay.Edge.Streams.{Waiting}
use outrelay_relay.Edge.Streams.Answer.{Course, crashes}
use outrelay_relay.Edge.System.{Outside, Process, Act, runs}
use outrelay_relay.Edge.System.Acts.{fresh_system, run}
use outrelay_relay.Edge.System.Allocs.{Allocs, Sound, counter_in, owner_in, ids_of, agents_of}
use outrelay_relay.Edge.System.Rows.{stream_of, names_of}
use outrelay_relay.Edge.System.Safe.{Safe}
use outrelay_relay.Start.Setup.{Flags, Surroundings, Service, start, serves}
use outrelay_relay.Start.Setup.Configured.{Equipped, serving_is_configured}
use outrelay_relay.Edge.System.Steps.{Addressed, run-Safe}

empty-Allocs :
    (g : Option Plane) → (g ≡ none) ⊎ (g ≡ some new_plane) → Allocs g [] [] × (counter_in g ≡ 0)
unfolding new_plane get
empty-Allocs g (inl e) =
    subst (λ (x : Option Plane). Allocs x [] [] × (counter_in x ≡ 0)) (sym e)
      (
        record {
          sound = tt;
          held = λ id uri h. absurd (ground arith);
          below = λ n x id h. absurd (ground arith);
          resumed_below = λ id h. absurd h;
          exclusive = λ n m x y id h. absurd (ground arith);
          apart = λ n x id h. absurd (ground arith);
          unbroken = λ n x h. absurd (ground arith);
        },
        refl,
      )
empty-Allocs g (inr e) =
    subst (λ (x : Option Plane). Allocs x [] [] × (counter_in x ≡ 0)) (sym e)
      (
        record {
          sound = new_plane-Inv;
          held = λ id uri h. absurd (ground arith);
          below = λ n x id h. absurd (ground arith);
          resumed_below = λ id h. absurd h;
          exclusive = λ n m x y id h. absurd (ground arith);
          apart = λ n x id h. absurd (ground arith);
          unbroken = λ n x h. absurd (ground arith);
        },
        refl,
      )

plane_cases :
    (f : Flags) (v : Service)
    → Equipped f v
    → (v.relay.forward ≡ none) ⊎ (v.relay.forward ≡ some new_plane)
plane_cases f v built = elim (Bool-cases (f.listen_forward == [])) [
  | inl off ↦ inl (built.no_plane ((eq_iff f.listen_forward []).0 off))
  | inr on ↦ inr (built.plane λ e. ground (arith, eq_iff f.listen_forward []))
]

fresh-Safe :
    (f : Flags) (v : Service)
    → Equipped f v
    → Safe (fresh_system v.relay) × (counter_in v.relay.forward ≡ 0)
unfolding get lookup_agent
fresh-Safe f v built =
    let (none_held, zero_start) = empty-Allocs v.relay.forward (plane_cases f v built) in
    (
      record {
        names = record {
          connected = λ conn ac h. absurd (ground arith);
          directory = λ uri ac h. absurd (ground (arith, built.nobody, h));
          callers = λ n w h. absurd (ground arith);
        };
        allocs = none_held;
        rows = record {
          served = λ id p h. absurd (ground (arith, built.no_pairs, h));
          unnamed = ground (arith, built.no_pairs);
        };
      },
      zero_start,
    )

module _ (sort : List RelayInstance → List RelayInstance) (f : Flags) (sur : Surroundings)
    (v : Service) (up : start sort f sur ≡ serves v) (out : Outside)
    (no_name : out.parse_role [] ≡ none) (acts : List Act) (sent : All Addressed acts)
    (few : 2 * length acts < u32_mod) where
  reached : Safe (run out acts (fresh_system v.relay))
  reached =
      let (safe, zero_start) = fresh-Safe f v (serving_is_configured sort f sur v up).4 in
      (run-Safe out no_name acts (fresh_system v.relay) safe zero_start sent few).0

  -- Of a relay that main has set up and that then runs any acts of its connections, streams,
  -- control loops, datagrams, collections, resumptions, policy watcher and heartbeat in any order,
  -- fewer than 2^31 of them, where identity.Parse refuses the empty name and a datagram has a
  -- valid source: the tables of the plane agree, and every allocation was granted when a stream
  -- was resumed, or a handler that still runs holds it and its owner is one of the two agents of
  -- that handler's stream.
  pub allocations_are_held :
      let s = run out acts (fresh_system v.relay) in
      (p : Plane)
      → s.relay.forward ≡ some p
      → Inv p
        × ((id : ℕ) (entry : AllocEntry)
            → get id p.by_alloc ≡ some entry
            → ((n : ℕ) × (x : Process) × (get n s.streams ≡ some x)
                × Elem id (ids_of x)
                × Elem entry.uri (agents_of x))
              ⊎ Elem id s.resumed)
  allocations_are_held p on = (
    subst Sound on reached.allocs.sound,
    λ id entry e. reached.allocs.held id entry.uri (ap (owner_in id) on ∙ ap owner_at e),
  )

  -- Of a relay that main has set up and that then runs any acts of its connections, streams,
  -- control loops, datagrams, collections, resumptions, policy watcher and heartbeat in any order,
  -- fewer than 2^31 of them, where identity.Parse refuses the empty name and a datagram has a
  -- valid source: an allocation that one handler holds is held by no other one, and was not
  -- granted when a stream was resumed.
  pub holders_are_apart :
      let s = run out acts (fresh_system v.relay) in
      (n m : ℕ) (x y : Process) (id : ℕ)
      → get n s.streams ≡ some x
      → get m s.streams ≡ some y
      → Elem id (ids_of x)
      → (Elem id (ids_of y) → n ≡ m) × (Elem id s.resumed → ⊥)
  holders_are_apart n m x y id e d i =
      (reached.allocs.exclusive n m x y id e d i, reached.allocs.apart n x id e i)

  -- Of a relay that main has set up and that then runs any acts of its connections, streams,
  -- control loops, datagrams, collections, resumptions, policy watcher and heartbeat in any order,
  -- fewer than 2^31 of them, where identity.Parse refuses the empty name and a datagram has a
  -- valid source: every recorded pair stands under an id above 0, and a handler that still runs
  -- serves the stream of this id between the two agents that the pair names.
  pub pairs_are_served :
      let s = run out acts (fresh_system v.relay) in
      (id : ℕ) (p : StreamPair)
      → get id s.relay.pairs ≡ some p
      → (id ≢ 0)
        × ((n : ℕ) × (x : Process) × (get n s.streams ≡ some x)
            × (stream_of x ≡ id)
            × (names_of x ≡ p))
  pairs_are_served id p e =
      (λ zero_id. ground (arith, reached.rows.unnamed, e, zero_id), reached.rows.served id p e)

  -- Of a relay that main has set up and that then runs any acts of its connections, streams,
  -- control loops, datagrams, collections, resumptions, policy watcher and heartbeat in any order,
  -- fewer than 2^31 of them, where identity.Parse refuses the empty name and a datagram has a
  -- valid source: no handler of a stream has been stopped by a panic of Allocate.
  pub no_handler_panics :
      let s = run out acts (fresh_system v.relay) in
      (n : ℕ) (w : Waiting) (course : Course)
      → get n s.streams ≡ some (runs w course)
      → course ≢ crashes
  no_handler_panics n w course e = reached.allocs.unbroken n (runs w course) e

-- ===== src/Forward/Samples.antt =====
-- Concrete runs of the forwarding plane.
use outrelay_relay.Common.{
  ℕ, none, some, [], ◌∷◌, ◌++◌, ◌≡◌, ◌≢◌, refl, arith, true, Bytes, codes, get, get-put, get-del,
  not, ltb, kept, ◌<◌, List, nat_eq, ◌-◌,
}
use outrelay_relay.Forward.State.{
  AddrPort, AllocEntry, Plane, unset, endpoint, is_valid, lookup, owner_of, new_plane, set_idle_ttl,
  set_pending_ttl,
}
use outrelay_relay.Forward.Alloc
use outrelay_relay.Forward.Register
use outrelay_relay.Forward.Index.{Inv}
use outrelay_relay.Forward.History.{
  Event, issues, arms, datagram, Run, start, next, step, armed_in, punched_in, Run-Inv,
  bound_by_owner,
}
use outrelay_relay.Forward.Release.{next_nonzero_total, forget_agent_lem, forgotten}
use outrelay_relay.Forward.Expiry.{gc_once_lem}
use outrelay_relay.Forward.Delivery.{Delivered, put_u32, receive_data, arm_after_punch}
use outrelay_relay.Forward.Views.{owner_at}
use outrelay_relay.Forward.Serve
use outrelay_relay.Forward.Serve.{serve_plane, run_plane}
use outrelay_relay.Forward.Serve.Lasting.{allocations_last}

abbrev alice : Bytes
alice = 97 ∷ []

abbrev nonce : Bytes
nonce = 1 ∷ 2 ∷ 3 ∷ 4 ∷ 5 ∷ 6 ∷ 7 ∷ 8 ∷ 9 ∷ 10 ∷ 11 ∷ 12 ∷ 13 ∷ 14 ∷ 15 ∷ 16 ∷ []

abbrev home : AddrPort
home = endpoint 10 4_000

abbrev punch : Bytes
punch = 0 ∷ 0 ∷ 0 ∷ 0 ∷ 0 ∷ 0 ∷ 0 ∷ 1 ∷ nonce

abbrev empty_plane : Plane
empty_plane = set_pending_ttl 50 (set_idle_ttl 60 new_plane)

abbrev claim_events : List Event
claim_events = datagram punch home 30 30 ∷ arms 1 alice nonce 20 ∷ issues alice 10 ∷ []

abbrev claimed_plane : Plane
claimed_plane =
    step (datagram punch home 30 30)
      (step (arms 1 alice nonce 20) (step (issues alice 10) empty_plane))

alice_named : alice ≢ []
alice_named h = ground (arith, h)

claim-Run : Run claim_events claimed_plane
unfolding is_valid set_pending_ttl set_idle_ttl new_plane
claim-Run =
    next (datagram punch home 30 30)
      (next (arms 1 alice nonce 20)
        (next (issues alice 10) (start 60 50) (alice_named, omega arith)) tt)
      refl

abbrev claimed_entry : AllocEntry
claimed_entry = record { uri = alice; src = home; last_seen = 30 }

claimed : get 1 claimed_plane.by_alloc ≡ some claimed_entry
unfolding step get Register.receive Register.register Register.arm_pending
    outrelay_relay.Common.bytes_beq Alloc.allocate set_pending_ttl set_idle_ttl new_plane
    outrelay_relay.Common.put outrelay_relay.Forward.State.addr_beq
claimed = refl

bound_by_owner_example :
    (n : Bytes) × (armed_in claim_events 1 alice n ≡ true)
    × (punched_in claim_events 1 home n ≡ true)
unfolding is_valid
bound_by_owner_example = bound_by_owner 1 claimed_entry claim-Run claimed refl

forget_agent_example :
    Inv (Alloc.forget_agent alice claimed_plane).0
    × ((id : ℕ)
        → get id (Alloc.forget_agent alice claimed_plane).0.by_alloc
          ≡ forgotten alice (get id claimed_plane.by_alloc))
forget_agent_example = forget_agent_lem claimed_plane alice (Run-Inv claim-Run) alice_named

gc_once_example :
    Inv (Alloc.gc_once 95 claimed_plane)
    × ((id : ℕ)
        → get id (Alloc.gc_once 95 claimed_plane).by_alloc
          ≡ kept
              (λ _ entry. not (ltb entry.last_seen (95 - claimed_plane.idle_ttl)))
              id
              (get id claimed_plane.by_alloc))
gc_once_example = gc_once_lem claimed_plane 95 (Run-Inv claim-Run)

next_nonzero_example :
    (id : ℕ) × (Alloc.next_nonzero 2 4_294_967_295 ≡ some id) × (0 < id) × (id < Alloc.u32_mod)
next_nonzero_example = next_nonzero_total 4_294_967_295

receive_data_example :
    let r = Register.receive (put_u32 1 ++ 42 ∷ []) (endpoint 11 5_000) 40 40 claimed_plane in
    Delivered (get 1 claimed_plane.by_alloc) (42 ∷ []) r.1
    × ((i : ℕ) → lookup i r.0 ≡ lookup i claimed_plane)
    × ((i : ℕ) → owner_of i r.0 ≡ owner_of i claimed_plane)
receive_data_example =
    receive_data 1 (42 ∷ []) (endpoint 11 5_000) 40 40 claimed_plane (omega arith)

-- The plane after a grant, before either half of the claim.
abbrev granted_plane : Plane
granted_plane = step (issues alice 10) empty_plane

abbrev granted_entry : AllocEntry
granted_entry = record { uri = alice; src = unset; last_seen = 10 }

granted_found : get 1 granted_plane.by_alloc ≡ some granted_entry
unfolding step get Alloc.allocate outrelay_relay.Common.bytes_beq set_pending_ttl set_idle_ttl
    new_plane outrelay_relay.Common.put
granted_found = refl

granted_free : (get 1 granted_plane.pending ≡ none) × (get 1 granted_plane.queued ≡ none)
unfolding step get Alloc.allocate outrelay_relay.Common.bytes_beq set_pending_ttl set_idle_ttl
    new_plane
granted_free = (refl, refl)

granted_window : Register.pending_window granted_plane ≡ 50
unfolding step Register.pending_window Alloc.allocate outrelay_relay.Common.bytes_beq
    set_pending_ttl set_idle_ttl new_plane
granted_window = refl

arm_after_punch_example :
    lookup 1
      (Register.arm_pending 1 alice nonce 40 (Register.register 1 home nonce 30 30 granted_plane)).0
    ≡ some home
arm_after_punch_example =
    arm_after_punch 1 alice nonce home granted_plane granted_entry granted_found refl alice_named
      granted_free.0 granted_free.1 30 30 40 (rw granted_window (omega arith))

-- A plane whose allocations do not expire, and what happens while it is served.
abbrev lasting_plane : Plane
lasting_plane = step (issues alice 10) (set_pending_ttl 50 (set_idle_ttl 0 new_plane))

lasting-Run : Run (issues alice 10 ∷ []) lasting_plane
unfolding set_pending_ttl set_idle_ttl new_plane
lasting-Run = next (issues alice 10) (start 0 50) (alice_named, omega arith)

never_idle : lasting_plane.idle_ttl ≡ 0
unfolding step set_pending_ttl set_idle_ttl new_plane Alloc.allocate outrelay_relay.Common.bytes_beq
never_idle = refl

abbrev served_events : List Serve.PlaneEvent
served_events =
    Serve.datagram punch home 30 30 ∷ Serve.tick 9_000 ∷ Serve.context_ends ∷ Serve.read_error ∷ []

allocations_last_example :
    Inv (serve_plane served_events (run_plane lasting_plane)).plane
    × ((id : ℕ)
        → owner_at (get id (serve_plane served_events (run_plane lasting_plane)).plane.by_alloc)
          ≡ owner_at (get id lasting_plane.by_alloc))
unfolding is_valid
allocations_last_example =
    allocations_last lasting_plane served_events (Run-Inv lasting-Run) (refl, tt) never_idle

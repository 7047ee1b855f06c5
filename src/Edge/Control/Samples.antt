-- ===== src/Edge/Control/Samples.antt =====
-- Concrete control frames.
use outrelay_relay.Forward.State.{new_plane, punch_nonce_size, owner_of}
use outrelay_relay.Edge.Control.{
  ForwardRegister, ForwardRegisterReject, handle_forward_register, Wakeup, ticked, deadline_passed,
  [], ◌∷◌, List, Plane,
}
use outrelay_relay.Forward.State.{unset}
use outrelay_relay.Forward.Views.{owner_at}
use outrelay_relay.Registry.{Provider}
use outrelay_relay.Edge.Control.Loop.{Tables, on_control, forward_register}
use outrelay_relay.Edge.Control.Loop.Isolation.{control_spares_others}
use outrelay_relay.Edge.Control.Replies.{forward_register_lem}
use outrelay_relay.Common.{
  [], ◌∷◌, List, ◌≡◌, some, ◌↔◌, none, length, ◌≢◌, Bytes, ℕ, get, nat_eq, refl,
}

abbrev alice : Bytes
alice = 65 ∷ []

-- The nonce is too short.
abbrev short_claim : ForwardRegister
short_claim = record { alloc_id = 1; punch_nonce = [] }

forward_register_example :
    let answer = handle_forward_register alice short_claim 10 (some new_plane) in
    ((answer.0 ≡ none) ↔ (
      (length short_claim.punch_nonce ≡ punch_nonce_size)
      × (alice ≢ [])
      × (owner_of 1 new_plane ≡ some alice)))
    × ((reason : ForwardRegisterReject) → answer.0 ≡ some reason → answer.1 ≡ some new_plane)
forward_register_example = forward_register_lem alice short_claim 10 new_plane

abbrev wakeups : List Wakeup
wakeups = ticked 3 [] ∷ deadline_passed ∷ []

abbrev bob : Bytes
bob = 66 ∷ []

-- Alice claims an allocation of bob's.
abbrev foreign_claim : ForwardRegister
foreign_claim = record {
  alloc_id = 1;
  punch_nonce = 1 ∷ 2 ∷ 3 ∷ 4 ∷ 5 ∷ 6 ∷ 7 ∷ 8 ∷ 9 ∷ 10 ∷ 11 ∷ 12 ∷ 13 ∷ 14 ∷ 15 ∷ 16 ∷ [];
}

abbrev plane_of_bob : Plane
plane_of_bob = record new_plane {
  by_alloc = (1, record { uri = bob; src = unset; last_seen = 0 }) ∷ [];
  by_uri = (bob, (1, tt) ∷ []) ∷ [];
  next_id = 1;
}

abbrev tables : Tables
tables = record {
  reg = record { relay_id = 9 ∷ []; region = []; agent_conns = [] };
  pairs = [];
  migrated = [];
  forward = some plane_of_bob;
}

abbrev alice_conn : Provider
alice_conn = record { conn = 1; uri = alice }

control_example :
    let after =
      (on_control
        (λ uri. none)
        (λ request. none)
        (λ s. none)
        (λ s. none)
        alice_conn
        []
        (record { stamp = 10; now = 11 })
        (forward_register foreign_claim)
        tables).1 in
    (q : Plane) × (after.forward ≡ some q)
    × (after.reg ≡ tables.reg)
    × (after.pairs ≡ [])
    × ((i : ℕ)
        → (owner_at (get i q.by_alloc) ≡ owner_at (get i plane_of_bob.by_alloc))
          × (owner_at (get i plane_of_bob.by_alloc) ≢ some alice
              → get i q.by_alloc ≡ get i plane_of_bob.by_alloc))
control_example =
    control_spares_others (λ uri. none) (λ request. none) (λ s. none) (λ s. none) alice_conn []
      (record { stamp = 10; now = 11 }) (forward_register foreign_claim) tables plane_of_bob refl

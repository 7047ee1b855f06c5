-- ===== src/Edge/Drain/Samples.antt =====
-- A drain of two agents.
use outrelay_relay.Registry.{Provider}
use outrelay_relay.Edge.Drain.{
  DrainEvent, polled, timed_out, ◌∷◌, List, ℕ, [], wait_for_agents, notify, goaway, forced,
}
use outrelay_relay.Common.{◌∷◌, List, ℕ, [], Bool, ◌==◌, nat_eq, ◌≡◌, codes, refl}

abbrev alice : Provider
alice = record { conn = 1; uri = 65 ∷ [] }

abbrev bob : Provider
bob = record { conn = 2; uri = 66 ∷ [] }

-- Alice leaves and bob does not; the GOAWAY to bob cannot be written.
abbrev turns : List (List Provider × DrainEvent)
turns = (alice ∷ bob ∷ [], polled) ∷ (bob ∷ [], timed_out) ∷ []

abbrev to_alice : ℕ → Bool
to_alice conn = conn == 1

bob_is_closed : wait_for_agents turns ≡ forced (2 ∷ [])
unfolding wait_for_agents
bob_is_closed = refl

alice_is_told :
    notify to_alice (goaway [] ((7 ∷ []) ∷ []) (codes "drain") 5_000_000) (alice ∷ bob ∷ [])
    ≡ record {
      told = (1, goaway [] ((7 ∷ []) ∷ []) (codes "drain") 5_000_000) ∷ [];
      closed = 2 ∷ [];
    }
unfolding notify
alice_is_told = refl

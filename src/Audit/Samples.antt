-- ===== src/Audit/Samples.antt =====
-- A concrete order of emits and drains.
use outrelay_relay.Common.{ℕ, [], ◌∷◌, ◌++◌, ◌≤◌, List, length, ◌≡◌}
use outrelay_relay.Audit.{
  Turn, emits, drains, after, waiting, taken, queue_depth, after-Accounted, List, length,
}

abbrev turns : List (Turn ℕ)
turns = emits 3 ∷ drains ∷ emits 2 ∷ emits 1 ∷ []

after-Accounted_example :
    ((after turns).shipped ++ (after turns).queue ≡ taken turns)
    × (length (after turns).queue ≡ waiting turns)
    × (waiting turns ≤ queue_depth)
after-Accounted_example = after-Accounted turns

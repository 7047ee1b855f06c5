-- ===== src/Start/Samples.antt =====
-- Concrete lists of endpoints.
use outrelay_relay.Text.{comma, join, trim_space}
use outrelay_relay.Start.{split_endpoints, ℕ, Bytes, ◌∷◌}
use outrelay_relay.Start.Endpoints.{
  Item, blank, padded, written, named_in, Plain, split_endpoints-join,
}
use outrelay_relay.Start.Setup.{default_flags}
use outrelay_relay.Edge.Accept.{stopped}
use outrelay_relay.Start.Shutdown.{
  LifecycleEvent, signalled, signal_taken, drain_returned, run_returned, drain_defaults, lifecycle,
}
use outrelay_relay.Start.Shutdown.Stages.{WoundDown}
use outrelay_relay.Start.Shutdown.Quiet.{exits-WoundDown}
use outrelay_relay.Common.{
  ℕ, Bytes, arith, ◌∷◌, Bool, [], ◌≡◌, refl, ◌==◌, nat_eq, Option, List, true, none, map,
}

abbrev is_blank : ℕ → Bool
is_blank c = c == 32

abbrev relay_a : Bytes
relay_a = 97 ∷ []

abbrev relay_b : Bytes
relay_b = 98 ∷ []

a-Plain : Plain is_blank relay_a
unfolding trim_space
a-Plain = (λ h. ground (arith, h), (omega arith, tt), refl)

b-Plain : Plain is_blank relay_b
unfolding trim_space
b-Plain = (λ h. ground (arith, h), (omega arith, tt), refl)

-- `a`, a blank item and `b`, with blanks around them.
abbrev blank_list : List Item
blank_list = padded (32 ∷ []) relay_a [] ∷ blank (32 ∷ []) ∷ padded [] relay_b (32 ∷ 32 ∷ []) ∷ []

split_endpoints-join_example :
    split_endpoints is_blank (join comma (map written blank_list)) ≡ named_in blank_list
split_endpoints-join_example =
    split_endpoints-join is_blank refl blank_list
      (((refl, tt), a-Plain, tt), ((refl, tt), ((tt, b-Plain, (refl, (refl, tt))), tt)))

-- A relay that drains on a signal and then exits, the last event first.
abbrev no_duration : Bytes → Option ℕ
no_duration s = none

abbrev last_days : List LifecycleEvent
last_days = run_returned stopped ∷ drain_returned ∷ signal_taken ∷ signalled ∷ []

exits-WoundDown_example :
    WoundDown true
      (drain_defaults is_blank no_duration default_flags)
      last_days
      (lifecycle is_blank no_duration default_flags true last_days)
unfolding lifecycle default_flags outrelay_relay.Common.bytes_beq
exits-WoundDown_example =
    exits-WoundDown is_blank no_duration default_flags true last_days (refl, (tt, (tt, (tt, tt))))
      refl

-- ===== src/Edge/ForwardResume/Samples.antt =====
-- Two halves of one stream.
use outrelay_relay.Edge.ForwardResume.{
  drives, HalfForwardResume, ForwardMatcher, new_forward_matcher, fresh_half, submit, receive,
  readable, submits, receives, Run, stay, then_step, true, some, get, none,
}
use outrelay_relay.Edge.ForwardResume.Pairing.{one_driver, no_half_is_lost}
use outrelay_relay.Common.{true, some, get, none, refl, ◌≡◌, false, ◌⊎◌, ℕ, ◌≢◌, nat_eq}

-- The first half of stream 7 is parked, as half 1, and half 2 comes in.
abbrev parked : ForwardMatcher
parked = submit 1 7 new_forward_matcher

abbrev matched : ForwardMatcher
matched = submit 2 7 parked

abbrev parked_half : HalfForwardResume
parked_half = record (fresh_half 7) { watched = true }

abbrev second_half : HalfForwardResume
second_half = record (fresh_half 7) { message = some 1 }

parked_found : get 1 parked.halves ≡ some parked_half
unfolding get submit new_forward_matcher outrelay_relay.Common.put
parked_found = refl

parked_fresh : get 2 parked.halves ≡ none
unfolding get submit new_forward_matcher outrelay_relay.Common.put
parked_fresh = refl

second_found : get 2 matched.halves ≡ some second_half
unfolding get submit new_forward_matcher outrelay_relay.Common.put
second_found = refl

parked-Run : Run new_forward_matcher parked
unfolding new_forward_matcher get
parked-Run =
    then_step new_forward_matcher new_forward_matcher parked (stay new_forward_matcher)
      (submits 1 7 new_forward_matcher refl)

driven-Run : Run new_forward_matcher (receive 2 matched)
unfolding readable
driven-Run =
    then_step new_forward_matcher matched (receive 2 matched)
      (then_step new_forward_matcher parked matched parked-Run (submits 2 7 parked parked_fresh))
      (receives 2 second_half matched second_found refl refl)

abbrev driver : HalfForwardResume
driver = record second_half { message = none; driver = drives 1 }

driver_found : get 2 (receive 2 matched).halves ≡ some driver
unfolding get receive submit new_forward_matcher outrelay_relay.Common.put
driver_found = refl

one_driver_example :
    ((y : HalfForwardResume) × (get 1 (receive 2 matched).halves ≡ some y)
      × (y.id ≡ 7)
      × (y.timed_out ≡ false)
      × ((q : ℕ) → y.driver ≢ drives q))
    × ((g : ℕ) (z : HalfForwardResume)
        → get g (receive 2 matched).halves ≡ some z
        → z.driver ≡ drives 1
        → g ≡ 2)
one_driver_example = one_driver (receive 2 matched) driven-Run 2 driver driver_found 1 refl

no_half_is_lost_example :
    ((get 7 parked.pending ≡ some 1) × (parked_half.watched ≡ true)) ⊎ (readable parked_half ≡ true)
no_half_is_lost_example = no_half_is_lost parked parked-Run 1 parked_half parked_found refl

-- ===== src/Edge/ForwardResume/Pairing.antt =====
-- pkg/edge/forward_resume.go: who drives a pair, and that every half is told.
use outrelay_relay.Edge.Resume.{is_half}
use outrelay_relay.Edge.ForwardResume.{
  waiting, drives, HalfForwardResume, ForwardMatcher, new_forward_matcher, fresh_half,
  close_matched, drained, unwatched, time_out, update, submit, watch, expire, read_matched, receive,
  readable, Step, submits, watches, expires, receives, Run, stay, then_step,
}
use outrelay_relay.Edge.ForwardResume.Agreement.{Inv, IsQuiet, peer_at, told_at}
use outrelay_relay.Edge.ForwardResume.Preserved.{quiet-Inv, time_out-Inv, park-Inv, pair-Inv}
use outrelay_relay.Common.{
  ℕ, get, Dict, arith, ◌≡◌, some, none, put, Option-cases, true, if_cases, false, inl, ◌≢◌, ◌⊎◌,
  nat_eq, inr, refl, del, subst, Option, eq_iff, Bool-cases, sym, eq_refl,
}

update_found :
    (h : ℕ) (f : HalfForwardResume → HalfForwardResume) (x : HalfForwardResume)
    (halves : Dict ℕ HalfForwardResume)
    → get h halves ≡ some x
    → update h f halves ≡ put h (f x) halves
unfolding update
update_found h f x halves at = ground (arith, at)

submit-parks :
    (g id : ℕ) (m : ForwardMatcher)
    → get id m.pending ≡ none
    → submit g id m ≡ record {
      pending = put id g m.pending;
      halves = put g (record (fresh_half id) { watched = true }) m.halves;
    }
unfolding submit
submit-parks g id m empty = ground (arith, empty)

submit-pairs :
    (g h id : ℕ) (x : HalfForwardResume) (m : ForwardMatcher)
    → get id m.pending ≡ some h
    → get h m.halves ≡ some x
    → submit g id m ≡ record {
      pending = del id m.pending;
      halves =
          put g (record (fresh_half id) { message = some h }) (put h (close_matched x) m.halves);
    }
unfolding submit
submit-pairs g h id x m own at = ground (arith, own, update_found h close_matched x m.halves at)

submit-Inv : (g id : ℕ) (m : ForwardMatcher) → get g m.halves ≡ none → Inv m → Inv (submit g id m)
submit-Inv g id m fresh v = elim (Option-cases (get id m.pending)) [
  | inl empty ↦ subst Inv (sym (submit-parks g id m empty)) (park-Inv m v g id fresh empty)
  | inr (h, own) ↦ elim (Option-cases (get h m.halves)) [
    | inl missing ↦ absurd (ground (arith, v.parked id h own, missing))
    | inr (x, at) ↦
        subst Inv (sym (submit-pairs g h id x m own at))
          (pair-Inv m v h x (close_matched x) at g id fresh own refl)
  ]
]

found_of_half : (h : ℕ) (found : Option ℕ) → is_half h found ≡ true → found ≡ some h
unfolding is_half
found_of_half h none e = ground (arith, e)
found_of_half h (some cur) e = ground (arith, e, eq_iff cur h)

module _ (m : ForwardMatcher) (v : Inv m) (h : ℕ) (x : HalfForwardResume)
    (at : get h m.halves ≡ some x) where
  readable_is_free : readable x ≡ true → (i : ℕ) → get i m.pending ≢ some h
  unfolding readable
  readable_is_free ready i e = ground (arith, v.parked i h e, at, ready)

  unwatched-IsQuiet : IsQuiet x (unwatched x)
  unwatched-IsQuiet = record {
    same_id = refl;
    same_peer = refl;
    still_told = λ i t. t;
    still_orderly = λ t. ground (arith, t);
    still_readable = λ t. t;
  }

  drained-IsQuiet : x.watched ≡ true → IsQuiet x (drained x)
  drained-IsQuiet watched =
      let empty : x.message ≡ none = ground (arith, v.orderly h, at, watched) in
      record {
        same_id = refl;
        same_peer = ground (arith, empty);
        still_told = λ i t. ground (arith, empty, t);
        still_orderly = λ t. refl;
        still_readable = λ t. ground (arith, empty, t);
      }

  watch-Inv : x.watched ≡ true → readable x ≡ true → Inv (watch h m)
  unfolding watch
  watch-Inv watched ready =
      rw (update_found h drained x m.halves at)
        (quiet-Inv m v h x (drained x) at (readable_is_free ready) (drained-IsQuiet watched))

  late_is_free : is_half h (get x.id m.pending) ≡ false → (i : ℕ) → get i m.pending ≢ some h
  unfolding is_half
  late_is_free late i e = ground (arith, v.parked i h e, at, late, eq_iff x.id i, eq_refl h)

  expire-Inv : Inv (expire h x.id m)
  unfolding expire
  expire-Inv =
      if_cases Inv (is_half h (get x.id m.pending)) _ _
        (λ own.
          rw (update_found h time_out x m.halves at)
            (time_out-Inv m v h x (time_out x) at (found_of_half h (get x.id m.pending) own) refl))
        λ late.
          rw (update_found h unwatched x m.halves at)
            (quiet-Inv m v h x (unwatched x) at (late_is_free late) unwatched-IsQuiet)

  read_matched-IsQuiet : x.driver ≡ waiting → IsQuiet x (read_matched x)
  unfolding read_matched
  read_matched-IsQuiet waits = elim (Option-cases x.message) [
    | inl empty ↦ record {
      same_id = ground (arith, empty);
      same_peer = ground (arith, empty, waits);
      still_told = λ i t. ground (arith, empty, t);
      still_orderly = λ t. ground (arith, empty, t);
      still_readable = λ t. ground (arith, empty, t);
    }
    | inr (p, given) ↦ record {
      same_id = ground (arith, given);
      same_peer = ground (arith, given);
      still_told = λ i t. ground (arith, given, t);
      still_orderly = λ t. ground (arith, given, t);
      still_readable = λ t. ground (arith, given, t);
    }
  ]

  receive-Inv : x.driver ≡ waiting → readable x ≡ true → Inv (receive h m)
  unfolding receive
  receive-Inv waits ready =
      rw (update_found h read_matched x m.halves at) (
        quiet-Inv m v h x (read_matched x) at (readable_is_free ready) (read_matched-IsQuiet waits))

Step-Inv : (m n : ForwardMatcher) → Inv m → Step m n → Inv n
Step-Inv _ _ v (submits g id m fresh) = submit-Inv g id m fresh v
Step-Inv _ _ v (watches h x m at watched ready) = watch-Inv m v h x at watched ready
Step-Inv _ _ v (expires h x m at watched) = expire-Inv m v h x at
Step-Inv _ _ v (receives h x m at waits ready) = receive-Inv m v h x at waits ready

Run-Inv : (m n : ForwardMatcher) → Inv m → Run m n → Inv n
Run-Inv _ _ v (stay m) = v
Run-Inv _ _ v (then_step a b c run step) = Step-Inv b c (Run-Inv a b v run) step

start-Inv : Inv new_forward_matcher
unfolding new_forward_matcher get
start-Inv = record {
  parked = λ i h e. ground (arith, e);
  told = λ h p i e t. ground (arith, e);
  alone = λ h g p a b. ground (arith, a);
  settled = λ h i e w. ground (arith, e);
  orderly = λ h. refl;
}

module _ (n : ForwardMatcher) (run : Run new_forward_matcher n) (h : ℕ) (x : HalfForwardResume)
    (at : get h n.halves ≡ some x) where
  -- Whatever goroutines of the forward resume matcher run and in whatever order, the peer that a
  -- half drives a pair with is a half of the same stream that has not timed out and drives nothing
  -- itself, and no other half drives a pair with that peer.
  pub one_driver :
      (p : ℕ)
      → x.driver ≡ drives p
      → ((y : HalfForwardResume) × (get p n.halves ≡ some y)
          × (y.id ≡ x.id)
          × (y.timed_out ≡ false)
          × ((q : ℕ) → y.driver ≢ drives q))
        × ((g : ℕ) (z : HalfForwardResume) → get g n.halves ≡ some z → z.driver ≡ drives p → g ≡ h)
  one_driver p drove =
      let v = Run-Inv new_forward_matcher n start-Inv run in
      let mine = driver_peer v h x p at drove in
      (
        told_half v p x.id (v.told h p x.id mine (ground (arith, at))),
        λ g z there also. v.alone g h p (driver_peer v g z p there also) mine,
      )
    where
      driver_peer :
          Inv n
          → (g : ℕ) (z : HalfForwardResume) (p : ℕ) → get g n.halves ≡ some z
          → z.driver ≡ drives p
          → peer_at (get g n.halves) ≡ some p
      driver_peer v g z p there drove = ground (arith, v.orderly g, there, drove)

      told_half :
          Inv n
          → (p i : ℕ) → told_at i (get p n.halves) ≡ true
          → (y : HalfForwardResume) × (get p n.halves ≡ some y)
            × (y.id ≡ i)
            × (y.timed_out ≡ false)
            × ((q : ℕ) → y.driver ≢ drives q)
      told_half v p i t = elim (Option-cases (get p n.halves)) [
        | inl missing ↦ absurd (ground (arith, t, missing))
        | inr (y, found) ↦ (
          y,
          found,
          ground (arith, t, found, eq_iff y.id i),
          ground (arith, t, found),
          λ q e. ground (arith, t, found, e),
        )
      ]

  -- Whatever goroutines of the forward resume matcher run and in whatever order, a half that still
  -- waits can read its channel, or it stands in the table under its stream with the goroutine that
  -- expires it still running.
  pub no_half_is_lost :
      x.driver ≡ waiting
      → ((get x.id n.pending ≡ some h) × (x.watched ≡ true)) ⊎ (readable x ≡ true)
  unfolding readable
  no_half_is_lost waits =
      let v = Run-Inv new_forward_matcher n start-Inv run in
      elim (Bool-cases (readable x)) [
        | inl ready ↦ inr ready
        | inr shut ↦
            let own = v.settled h x.id (ground (arith, at)) (ground (arith, at, waits, shut)) in
            inl (own, ground (arith, v.parked x.id h own, at))
      ]

-- ===== src/Edge/ForwardResume/Agreement.antt =====
-- pkg/edge/forward_resume.go: how the table and the halves agree, whatever goroutines run.
use outrelay_relay.Edge.ForwardResume.{
  Driver, waiting, drives, HalfForwardResume, ForwardMatcher, Option, Bool, ℕ, ◌≡◌,
}
use outrelay_relay.Common.{
  Option, Bool, ℕ, ◌≡◌, true, some, false, get, none, ◌==◌, ◌||◌, ◌&&◌, nat_eq, not,
}

abbrev pub is_none : Option ℕ → Bool
is_none none = true
is_none (some p) = false

abbrev pub is_waiting : Driver → Bool
is_waiting waiting = true
is_waiting _ = false

abbrev pub is_readable : HalfForwardResume → Bool
is_readable x = elim x.message [ none ↦ x.closed | some p ↦ true ]

abbrev pub is_driving : Driver → Bool
is_driving (drives p) = true
is_driving _ = false

abbrev pub driven : Driver → Option ℕ
driven (drives p) = some p
driven _ = none

-- The peer that a half was given, in its channel or already read.
abbrev pub peer_in : HalfForwardResume → Option ℕ
peer_in x = elim x.message [ none ↦ driven x.driver | some p ↦ some p ]

abbrev pub peer_at : Option HalfForwardResume → Option ℕ
peer_at none = none
peer_at (some x) = peer_in x

-- A half that stands in the table, with its timer.
abbrev pub parked_at : ℕ → Option HalfForwardResume → Bool
parked_at i none = false
parked_at i (some x) =
    x.id == i
    && is_none x.message
    && not x.closed
    && not x.timed_out
    && x.watched
    && is_waiting x.driver

-- A half of this stream whose channel was closed by its peer, and that does not drive.
abbrev pub told_at : ℕ → Option HalfForwardResume → Bool
told_at i none = false
told_at i (some x) =
    x.id == i && x.closed && not x.timed_out && is_none x.message && not (is_driving x.driver)

abbrev pub id_at : Option HalfForwardResume → Option ℕ
id_at none = none
id_at (some x) = some x.id

-- The half waits, and nothing can be read.
abbrev pub stuck_at : Option HalfForwardResume → Bool
stuck_at none = false
stuck_at (some x) = is_waiting x.driver && not (is_readable x)

-- A message that stands in the channel has not been read, and no other goroutine can take it.
abbrev pub orderly_at : Option HalfForwardResume → Bool
orderly_at none = true
orderly_at (some x) = is_none x.message || (is_waiting x.driver && not x.watched)

pub record Inv (m : ForwardMatcher) : Type 0 where
  pub parked : (i h : ℕ) → get i m.pending ≡ some h → parked_at i (get h m.halves) ≡ true
  pub told :
      (h p i : ℕ)
      → peer_at (get h m.halves) ≡ some p
      → id_at (get h m.halves) ≡ some i
      → told_at i (get p m.halves) ≡ true
  pub alone :
      (h g p : ℕ) → peer_at (get h m.halves) ≡ some p → peer_at (get g m.halves) ≡ some p → h ≡ g
  pub settled :
      (h i : ℕ)
      → id_at (get h m.halves) ≡ some i
      → stuck_at (get h m.halves) ≡ true
      → get i m.pending ≡ some h
  pub orderly : (h : ℕ) → orderly_at (get h m.halves) ≡ true

-- A step of one goroutine, which takes nothing back.
pub record IsQuiet (x y : HalfForwardResume) : Type 0 where
  pub same_id : y.id ≡ x.id
  pub same_peer : peer_in y ≡ peer_in x
  pub still_told : (i : ℕ) → told_at i (some x) ≡ true → told_at i (some y) ≡ true
  pub still_orderly : orderly_at (some x) ≡ true → orderly_at (some y) ≡ true
  pub still_readable : stuck_at (some y) ≡ true → stuck_at (some x) ≡ true

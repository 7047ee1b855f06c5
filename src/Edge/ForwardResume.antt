-- ===== src/Edge/ForwardResume.antt =====
-- pkg/edge/forward_resume.go: `forwardMatcher`, as the steps of its goroutines on the shared table, and
-- `driveForwardResume` of pkg/edge/edge.go. A half is told from other ones by a number, as the source
-- tells them by their pointers.
pub mod Agreement
pub mod Preserved
pub mod Pairing
mod Samples
pub mod Grants
use outrelay_relay.Edge.Resume.{is_half}
use outrelay_relay.Common.{
  ℕ, Dict, [], true, false, Bool, none, some, Option, get, if◌then◌else◌, put, del, ◌≡◌, nat_eq,
}

-- What the goroutine of a half has: it waits on `matched`, drives the pair with this peer, or has read
-- the close of the channel.
pub data Driver : Type 0 where
  waiting : Driver
  drives : ℕ → Driver
  bailed : Driver

-- `matched` is a channel with room for one message; `watched` while the goroutine that expires the half
-- runs.
pub record HalfForwardResume : Type 0 where
  pub id : ℕ
  pub message : Option ℕ
  pub closed : Bool
  pub timed_out : Bool
  pub watched : Bool
  pub driver : Driver

pub record ForwardMatcher : Type 0 where
  pub pending : Dict ℕ ℕ
  pub halves : Dict ℕ HalfForwardResume

unfoldable pub new_forward_matcher : ForwardMatcher
new_forward_matcher = record { pending = []; halves = [] }

abbrev pub fresh_half : ℕ → HalfForwardResume
fresh_half id = record {
  id = id;
  message = none;
  closed = false;
  timed_out = false;
  watched = false;
  driver = waiting;
}

abbrev pub close_matched : HalfForwardResume → HalfForwardResume
close_matched x = record x { closed = true }

abbrev pub drained : HalfForwardResume → HalfForwardResume
drained x = record x { message = none; watched = false }

abbrev pub unwatched : HalfForwardResume → HalfForwardResume
unwatched x = record x { watched = false }

abbrev pub time_out : HalfForwardResume → HalfForwardResume
time_out x = record x { timed_out = true; closed = true; watched = false }

-- `f` on a half of the table.
unfoldable pub update :
    ℕ
    → (HalfForwardResume → HalfForwardResume)
    → Dict ℕ HalfForwardResume
    → Dict ℕ HalfForwardResume
update h f halves = elim (get h halves) [ none ↦ halves | some x ↦ put h (f x) halves ]

-- The part of `Submit` under the lock; the second arrival gets the first one, and closes its channel.
unfoldable pub submit : ℕ → ℕ → ForwardMatcher → ForwardMatcher
unfolding update
submit h id m = elim (get id m.pending) [
  | none ↦ record {
    pending = put id h m.pending;
    halves = put h (record (fresh_half id) { watched = true }) m.halves;
  }
  | some peer ↦ record {
    pending = del id m.pending;
    halves =
        put h (record (fresh_half id) { message = some peer }) (update peer close_matched m.halves);
  }
]

-- `case <-self.matched` of the goroutine that expires the half: it takes a message that is there.
unfoldable pub watch : ℕ → ForwardMatcher → ForwardMatcher
unfolding update
watch h m = record m { halves = update h drained m.halves }

-- `case <-t.C` of that goroutine.
unfoldable pub expire : ℕ → ℕ → ForwardMatcher → ForwardMatcher
unfolding update
expire h id m =
    if is_half h (get id m.pending)
    then record { pending = del id m.pending; halves = update h time_out m.halves }
    else record m { halves = update h unwatched m.halves }

unfoldable pub read_matched : HalfForwardResume → HalfForwardResume
read_matched x = elim x.message [
  | none ↦ record x { driver = bailed }
  | some p ↦ record x { message = none; driver = drives p }
]

-- `peer, ok := <-s.forwardResumer.Submit(self)`
unfoldable pub receive : ℕ → ForwardMatcher → ForwardMatcher
unfolding update read_matched
receive h m = record m { halves = update h read_matched m.halves }

-- A message stands in the channel, or it is closed.
unfoldable pub readable : HalfForwardResume → Bool
readable x = elim x.message [ none ↦ x.closed | some p ↦ true ]

-- One goroutine's step: a call of `Submit` for a half that is not in the table yet, a step of the
-- goroutine that watches a half, or of the one that waits for its peer.
pub data Step : ForwardMatcher → ForwardMatcher → Type 0 where
  submits : (h id : ℕ) (m : ForwardMatcher) → get h m.halves ≡ none → Step m (submit h id m)
  watches :
      (h : ℕ) (x : HalfForwardResume) (m : ForwardMatcher)
      → get h m.halves ≡ some x
      → x.watched ≡ true
      → readable x ≡ true
      → Step m (watch h m)
  expires :
      (h : ℕ) (x : HalfForwardResume) (m : ForwardMatcher)
      → get h m.halves ≡ some x
      → x.watched ≡ true
      → Step m (expire h x.id m)
  receives :
      (h : ℕ) (x : HalfForwardResume) (m : ForwardMatcher)
      → get h m.halves ≡ some x
      → x.driver ≡ waiting
      → readable x ≡ true
      → Step m (receive h m)

pub data Run : ForwardMatcher → ForwardMatcher → Type 0 where
  stay : (m : ForwardMatcher) → Run m m
  then_step : (a b c : ForwardMatcher) → Run a b → Step b c → Run a c

-- ===== src/Edge/Resume.antt =====
-- pkg/edge/resume.go: `resumeMatcher`, as the steps of its goroutines on the shared table. A half is
-- told from other ones by a number, as the source tells them by their pointers.
pub mod Stolen
pub mod Told
pub mod Pairing
use outrelay_relay.Common.{
  ℕ, none, some, [], ◌∷◌, true, false, Option, Dict, get, if◌then◌else◌, Bool, put, ◌==◌, del, ◌≡◌,
  nat_eq,
}

-- What the goroutine of a half's handler has: it waits on `matched`, or has read a peer or the close.
pub data Handler : Type 0 where
  waiting : Handler
  resumed : ℕ → Handler
  gave_up : Handler

-- `matched` is a channel with room for one message; `watched` while the goroutine that expires the half
-- runs.
pub record HalfStream : Type 0 where
  pub id : ℕ
  pub message : Option ℕ
  pub closed : Bool
  pub splicer : Bool
  pub watched : Bool
  pub handler : Handler

pub record ResumeMatcher : Type 0 where
  pub pending : Dict ℕ ℕ
  pub halves : Dict ℕ HalfStream

unfoldable pub new_resume_matcher : ResumeMatcher
new_resume_matcher = record { pending = []; halves = [] }

abbrev pub fresh_half : ℕ → HalfStream
fresh_half id = record {
  id = id;
  message = none;
  closed = false;
  splicer = false;
  watched = false;
  handler = waiting;
}

-- `f` on a half of the table.
unfoldable pub update : ℕ → (HalfStream → HalfStream) → Dict ℕ HalfStream → Dict ℕ HalfStream
update h f halves = elim (get h halves) [ none ↦ halves | some x ↦ put h (f x) halves ]

-- The part of `Submit` under the lock, and the messages to both halves.
unfoldable pub submit : ℕ → ℕ → ResumeMatcher → ResumeMatcher
unfolding update
submit h id m = elim (get id m.pending) [
  | none ↦ record {
    pending = put id h m.pending;
    halves = put h (record (fresh_half id) { watched = true }) m.halves;
  }
  | some peer ↦ record {
    pending = del id m.pending;
    halves =
        put h (record (fresh_half id) { splicer = true; message = some peer })
          (update peer (λ x. record x { splicer = false; message = some h }) m.halves);
  }
]

-- `case <-self.matched` of the goroutine that expires the half: it takes the message.
unfoldable pub watch : ℕ → ResumeMatcher → ResumeMatcher
unfolding update
watch h m = record m {
  halves = update h (λ x. record x { message = none; watched = false }) m.halves;
}

-- `ok && cur == self`
unfoldable pub is_half : ℕ → Option ℕ → Bool
is_half h none = false
is_half h (some cur) = cur == h

-- `case <-t.C` of that goroutine.
unfoldable pub expire : ℕ → ℕ → ResumeMatcher → ResumeMatcher
unfolding update is_half
expire h id m =
    if is_half h (get id m.pending)
    then record {
      pending = del id m.pending;
      halves = update h (λ x. record x { closed = true; watched = false }) m.halves;
    }
    else record m { halves = update h (λ x. record x { watched = false }) m.halves }

unfoldable pub read_matched : HalfStream → HalfStream
read_matched x = elim x.message [
  | none ↦ record x { handler = gave_up }
  | some p ↦ record x { message = none; handler = resumed p }
]

-- `matched := <-s.resumer.Submit(half)` of the handler.
unfoldable pub receive : ℕ → ResumeMatcher → ResumeMatcher
unfolding update read_matched
receive h m = record m { halves = update h read_matched m.halves }

-- A message stands in the channel, or it is closed.
unfoldable pub readable : HalfStream → Bool
readable x = elim x.message [ none ↦ x.closed | some p ↦ true ]

-- One goroutine's step: a call of `Submit` for a half that is not in the table yet, a step of the
-- goroutine that watches a half, or of the handler that waits for one.
pub data Step : ResumeMatcher → ResumeMatcher → Type 0 where
  submits : (h id : ℕ) (m : ResumeMatcher) → get h m.halves ≡ none → Step m (submit h id m)
  watches :
      (h : ℕ) (x : HalfStream) (m : ResumeMatcher)
      → get h m.halves ≡ some x
      → x.watched ≡ true
      → readable x ≡ true
      → Step m (watch h m)
  expires :
      (h : ℕ) (x : HalfStream) (m : ResumeMatcher)
      → get h m.halves ≡ some x
      → x.watched ≡ true
      → Step m (expire h x.id m)
  receives :
      (h : ℕ) (x : HalfStream) (m : ResumeMatcher)
      → get h m.halves ≡ some x
      → x.handler ≡ waiting
      → readable x ≡ true
      → Step m (receive h m)

pub data Run : ResumeMatcher → ResumeMatcher → Type 0 where
  stay : (m : ResumeMatcher) → Run m m
  then_step : (a b c : ResumeMatcher) → Run a b → Step b c → Run a c

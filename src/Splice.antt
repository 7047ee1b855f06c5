-- ===== src/Splice.antt =====
-- pkg/splice/splice.go: what a splice does when its two copies end. What `io.CopyBuffer` has copied and
-- how it ended, and what the streams can do, are arguments.
use outrelay_relay.Common.{
  ℕ, Bool, true, false, none, some, Option, [], ◌∷◌, List, ◌+◌, ◌≡◌, arith, if◌then◌else◌, ◌↔◌,
}

-- An error of a copy: `io.EOF`, or another one with its number.
pub data CopyError : Type 0 where
  eof : CopyError
  other : ℕ → CopyError

-- The interfaces that the destination has.
pub record Writer : Type 0 where
  pub half_closer : Bool
  pub aborter : Bool

pub data Signal : Type 0 where
  close_write : Signal
  cancel_write cancel_read : ℕ → Signal

abbrev pub abort_code : ℕ
abort_code = 10

-- `err == nil || errors.Is(err, io.EOF)`
unfoldable pub ended_well : Option CopyError → Bool
ended_well none = true
ended_well (some eof) = true
ended_well (some (other e)) = false

unfoldable pub fin : Writer → List Signal
fin dst = if dst.half_closer then close_write ∷ [] else []

-- `copyOne` after the copy: its result, and what the destination is told.
unfoldable pub copy_one : Writer → ℕ → Option CopyError → (ℕ × Option CopyError) × List Signal
unfolding ended_well fin
copy_one dst n err = if ended_well err then ((n, none), fin dst) else (
  (n, err),
  if dst.aborter then cancel_write abort_code ∷ cancel_read abort_code ∷ [] else fin dst,
)

unfoldable pub first_error : Option CopyError → Option CopyError → Option CopyError
first_error none later = later
first_error (some e) later = some e

-- `Bidirectional`, over the results of both copies in the order in which they end.
unfoldable pub gather : ℕ × Option CopyError → ℕ × Option CopyError → ℕ × Option CopyError
unfolding first_error
gather (n, e) (m, f) = (n + m, first_error e f)

unfoldable pub bidirectional :
    Writer → ℕ → Option CopyError → Writer → ℕ → Option CopyError → ℕ × Option CopyError
unfolding gather copy_one
bidirectional first n e second m f = gather (copy_one first n e).0 (copy_one second m f).0

-- The total of a splice is what both copies have copied, whichever ends first, and no error is
-- returned exactly when both ended well.
pub bidirectional_lem :
    (a b : Writer) (n m : ℕ) (e f : Option CopyError)
    → ((bidirectional a n e b m f).0 ≡ n + m)
      × ((bidirectional a n e b m f).0 ≡ (bidirectional b m f a n e).0)
      × (((bidirectional a n e b m f).1 ≡ none) ↔ ((ended_well e ≡ true) × (ended_well f ≡ true)))
unfolding bidirectional copy_one gather first_error ended_well
bidirectional_lem a b n m e f = (ground arith, ground arith, ground arith)

-- A destination that can be half-closed and reset is told the end of the data exactly when the
-- copy ended well.
pub copy_one_lem :
    (dst : Writer) (n : ℕ) (err : Option CopyError)
    → dst.aborter ≡ true
    → dst.half_closer ≡ true
    → ((copy_one dst n err).1 ≡ close_write ∷ []) ↔ (ended_well err ≡ true)
unfolding copy_one fin
copy_one_lem dst n err aborts closes = ground arith

-- ===== src/Edge/System/Allocs.antt =====
-- pkg/edge/edge.go: which handler holds an allocation of the plane, while the handlers run side by side.
pub mod Moves
use outrelay_relay.Common.{
  ℕ, ◌≤◌, ◌<◌, Option, none, some, List, [], ◌∷◌, ◌++◌, ◌≡◌, ◌≢◌, arith, Bytes, Dict, get, put, del,
  get-put, get-del, eq_iff, Elem, inl, inr, Bool-cases, refl, nat_eq, ◌==◌, ◌⊎◌, Elem-append_cases,
  subst, eq_refl, Elem-append_right, Elem-append_left, ◌∙◌, sym,
}
use outrelay_relay.Forward.State.{Plane}
use outrelay_relay.Forward.Views.{owner_at}
use outrelay_relay.Forward.Index.{Inv}
use outrelay_relay.Forward.Owners.{Keeps}
use outrelay_relay.Edge.Streams.Answer.{crashes, allocs_of}
use outrelay_relay.Edge.System.{Process, waits, runs, splices}

abbrev pub owner_in : ℕ → Option Plane → Option Bytes
owner_in id none = none
owner_in id (some p) = owner_at (get id p.by_alloc)

abbrev pub counter_in : Option Plane → ℕ
counter_in none = 0
counter_in (some p) = p.next_id

abbrev pub Sound : Option Plane → Type 0
Sound none = Unit
Sound (some p) = Inv p

-- No allocation is new, or another agent's.
pub record Shrinks (f g : Option Plane) : Type 0 where
  pub counter : counter_in g ≡ counter_in f
  pub owners : (id : ℕ) (uri : Bytes) → owner_in id g ≡ some uri → owner_in id f ≡ some uri

pub Keeps-Shrinks : (p q : Plane) → Keeps p q → Shrinks (some p) (some q)
Keeps-Shrinks p q k = record { counter = k.counter; owners = k.owners }

pub Shrinks-refl : (f : Option Plane) → Shrinks f f
Shrinks-refl f = record { counter = refl; owners = λ id uri h. h }

-- The allocations that the handler gives back when it ends.
abbrev pub ids_of : Process → List ℕ
ids_of (waits w) = []
ids_of (runs w course) = allocs_of course
ids_of (splices id self peer) = []

-- The agents of the stream.
abbrev pub agents_of : Process → List Bytes
agents_of (waits w) = w.caller.uri ∷ w.provider.uri ∷ []
agents_of (runs w course) = w.caller.uri ∷ w.provider.uri ∷ []
agents_of (splices id self peer) = self.uri ∷ peer.uri ∷ []

abbrev pub Unbroken : Process → Type 0
Unbroken (waits w) = Unit
Unbroken (runs w course) = course ≢ crashes
Unbroken (splices id self peer) = Unit

abbrev pub Streams : Type 0
Streams = Dict ℕ Process

-- A running handler holds the allocation, and its owner is one of the stream's agents.
abbrev pub HeldBy : Streams → ℕ → Bytes → Type 0
HeldBy st id uri =
    (n : ℕ) × (x : Process) × (get n st ≡ some x) × Elem id (ids_of x) × Elem uri (agents_of x)

-- Every allocation of the plane is held by a handler or was granted when a stream was resumed; two
-- handlers hold none in common, and none that was granted then.
pub record Allocs (f : Option Plane) (st : Streams) (resumed : List ℕ) : Type 0 where
  pub sound : Sound f
  pub held : (id : ℕ) (uri : Bytes) → owner_in id f ≡ some uri → HeldBy st id uri ⊎ Elem id resumed
  pub below :
      (n : ℕ) (x : Process) (id : ℕ) → get n st ≡ some x → Elem id (ids_of x) → id ≤ counter_in f
  pub resumed_below : (id : ℕ) → Elem id resumed → id ≤ counter_in f
  pub exclusive :
      (n m : ℕ) (x y : Process) (id : ℕ)
      → get n st ≡ some x
      → get m st ≡ some y
      → Elem id (ids_of x)
      → Elem id (ids_of y)
      → n ≡ m
  pub apart :
      (n : ℕ) (x : Process) (id : ℕ) → get n st ≡ some x → Elem id (ids_of x) → Elem id resumed → ⊥
  pub unbroken : (n : ℕ) (x : Process) → get n st ≡ some x → Unbroken x

module _ (f : Option Plane) (st : Streams) (resumed : List ℕ) (v : Allocs f st resumed) where
  pub shrink-Allocs : (g : Option Plane) → Shrinks f g → Sound g → Allocs g st resumed
  shrink-Allocs g sh ok = record {
    sound = ok;
    held = λ id uri h. v.held id uri (sh.owners id uri h);
    below = λ n x id e i. omega (arith, v.below n x id e i, sh.counter);
    resumed_below = λ id i. omega (arith, v.resumed_below id i, sh.counter);
    exclusive = v.exclusive;
    apart = v.apart;
    unbroken = v.unbroken;
  }

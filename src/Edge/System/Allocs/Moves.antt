-- ===== src/Edge/System/Allocs/Moves.antt =====
-- pkg/edge/edge.go: what the start and the end of a handler do to who holds which allocation.
use outrelay_relay.Common.{
  ℕ, ◌≤◌, ◌<◌, Option, some, List, [], ◌++◌, ◌≡◌, ◌≢◌, arith, Bytes, get, put, del, get-put,
  get-del, eq_iff, Elem, inl, inr, Bool-cases, nat_eq, ◌==◌, ◌⊎◌, Elem-append_cases, subst, eq_refl,
  Elem-append_right, Elem-append_left, ◌∙◌, sym,
}
use outrelay_relay.Forward.State.{Plane}
use outrelay_relay.Edge.System.{Process}
use outrelay_relay.Edge.System.Allocs.{
  owner_in, counter_in, Sound, ids_of, agents_of, Unbroken, Streams, HeldBy, Allocs,
}

module _ (f : Option Plane) (st : Streams) (resumed : List ℕ) (v : Allocs f st resumed) where
  -- A handler that holds nothing yet goes on as `x`, which holds what is new in the plane.
  module _ (n : ℕ) (x : Process) (g : Option Plane)
      (idle : (y : Process) → get n st ≡ some y → ids_of y ≡ [])
      (news : (id : ℕ) (uri : Bytes)
        → owner_in id g ≡ some uri
        → (owner_in id f ≡ some uri) ⊎ (Elem id (ids_of x) × Elem uri (agents_of x)))
      (fresh : (id : ℕ) → Elem id (ids_of x) → (counter_in f < id) × (id ≤ counter_in g))
      (grows : counter_in f ≤ counter_in g) (ok : Sound g) (sane : Unbroken x) where
    idle_holds : (y : Process) (id : ℕ) → get n st ≡ some y → Elem id (ids_of y) → ⊥
    idle_holds y id e i = subst (Elem id) (idle y e) i

    -- Who stands under a number afterwards: `x` under `n`, and anyone else as before.
    data After (m : ℕ) (y : Process) : Type 0 where
      new : m ≡ n → y ≡ x → After m y
      old : m ≢ n → get m st ≡ some y → After m y

    put_cases : (m : ℕ) (y : Process) → get m (put n x st) ≡ some y → After m y
    put_cases m y e = elim (Bool-cases (n == m)) [
      | inl same ↦ new (ground (arith, eq_iff n m)) (ground (arith, get-put n m x st))
      | inr other ↦ old (ground (arith, eq_iff n m)) (ground (arith, get-put n m x st))
    ]

    put_other : (m : ℕ) (y : Process) → m ≢ n → get m st ≡ some y → get m (put n x st) ≡ some y
    put_other m y apart e = ground (arith, get-put n m x st, eq_iff n m)

    put_self : get n (put n x st) ≡ some x
    put_self = ground (arith, get-put n n x st, eq_refl n)

    holder_kept :
        (id : ℕ) (uri : Bytes)
        → HeldBy st id uri ⊎ Elem id resumed
        → HeldBy (put n x st) id uri ⊎ Elem id resumed
    holder_kept id uri (inr r) = inr r
    holder_kept id uri (inl (m, y, e, i, u)) = elim (Bool-cases (m == n)) [
      | inl same ↦
          absurd (idle_holds y id (subst (λ (k : ℕ). get k st ≡ some y) ((eq_iff m n).0 same) e) i)
      | inr other ↦ inl (m, y, put_other m y (ground (arith, eq_iff m n)) e, i, u)
    ]

    pub next-Allocs : Allocs g (put n x st) resumed
    next-Allocs = record {
      sound = ok;
      held = λ id uri h. elim (news id uri h) [
        | inl was ↦ holder_kept id uri (v.held id uri was)
        | inr (i, u) ↦ inl (n, x, put_self, i, u)
      ];
      below = λ m y id e i. elim (put_cases m y e) [
        | new p q ↦ (fresh id (subst (λ (z : Process). Elem id (ids_of z)) q i)).1
        | old p was ↦ omega (arith, v.below m y id was i, grows)
      ];
      resumed_below = λ id i. omega (arith, v.resumed_below id i, grows);
      exclusive = λ m k y z id e d i j. elim (put_cases m y e) [
        | new p q ↦ elim (put_cases k z d) [
          | new p' q' ↦ p ∙ sym p'
          | old p' was ↦ absurd (
              omega (
                arith,
                v.below k z id was j,
                (fresh id (subst (λ (t : Process). Elem id (ids_of t)) q i)).0,
              ))
        ]
        | old p was ↦ elim (put_cases k z d) [
          | new p' q' ↦ absurd (
              omega (
                arith,
                v.below m y id was i,
                (fresh id (subst (λ (t : Process). Elem id (ids_of t)) q' j)).0,
              ))
          | old p' was' ↦ v.exclusive m k y z id was was' i j
        ]
      ];
      apart = λ m y id e i r. elim (put_cases m y e) [
        | new p q ↦ omega (
          arith,
          v.resumed_below id r,
          (fresh id (subst (λ (t : Process). Elem id (ids_of t)) q i)).0,
        )
        | old p was ↦ v.apart m y id was i r
      ];
      unbroken = λ m y e. elim (put_cases m y e) [
        | new p q ↦ subst Unbroken (sym q) sane
        | old p was ↦ v.unbroken m y was
      ];
    }

  -- A handler ends and gives back what it holds.
  module _ (n : ℕ) (x : Process) (g : Option Plane) (here : get n st ≡ some x)
      (gives_back : (id : ℕ) (uri : Bytes)
        → owner_in id g ≡ some uri
        → (owner_in id f ≡ some uri) × (Elem id (ids_of x) → ⊥))
      (same : counter_in g ≡ counter_in f) (ok : Sound g) where
    del_other : (m : ℕ) (y : Process) → m ≢ n → get m st ≡ some y → get m (del n st) ≡ some y
    del_other m y apart e = ground (arith, get-del n m st, eq_iff n m)

    pub was_there : (m : ℕ) (y : Process) → get m (del n st) ≡ some y → get m st ≡ some y
    was_there m y e = ground (arith, get-del n m st)

    holder_left :
        (id : ℕ) (uri : Bytes)
        → (Elem id (ids_of x) → ⊥)
        → HeldBy st id uri ⊎ Elem id resumed
        → HeldBy (del n st) id uri ⊎ Elem id resumed
    holder_left id uri free (inr r) = inr r
    holder_left id uri free (inl (m, y, e, i, u)) = elim (Bool-cases (m == n)) [
      | inl self ↦ absurd (
          free (
            subst (λ (z : Process). Elem id (ids_of z)) {x = y} {y = x}
              (ground (arith, eq_iff m n, e, here)) i))
      | inr other ↦ inl (m, y, del_other m y (ground (arith, eq_iff m n)) e, i, u)
    ]

    pub end-Allocs : Allocs g (del n st) resumed
    end-Allocs = record {
      sound = ok;
      held = λ id uri h.
          let (was, free) = gives_back id uri h in holder_left id uri free (v.held id uri was);
      below = λ m y id e i. omega (arith, v.below m y id (was_there m y e) i, same);
      resumed_below = λ id i. omega (arith, v.resumed_below id i, same);
      exclusive = λ m k y z id e d. v.exclusive m k y z id (was_there m y e) (was_there k z d);
      apart = λ m y id e. v.apart m y id (was_there m y e);
      unbroken = λ m y e. v.unbroken m y (was_there m y e);
    }

  -- What is new in the plane was granted when a stream was resumed.
  module _ (ids : List ℕ) (g : Option Plane)
      (news : (id : ℕ) (uri : Bytes)
        → owner_in id g ≡ some uri
        → (owner_in id f ≡ some uri) ⊎ Elem id ids)
      (fresh : (id : ℕ) → Elem id ids → (counter_in f < id) × (id ≤ counter_in g))
      (grows : counter_in f ≤ counter_in g) (ok : Sound g) where
    resumed_kept :
        (id : ℕ) (uri : Bytes)
        → HeldBy st id uri ⊎ Elem id resumed
        → HeldBy st id uri ⊎ Elem id (ids ++ resumed)
    resumed_kept id uri (inl h) = inl h
    resumed_kept id uri (inr r) = inr (Elem-append_right id ids resumed r)

    pub resume-Allocs : Allocs g st (ids ++ resumed)
    resume-Allocs = record {
      sound = ok;
      held = λ id uri h. elim (news id uri h) [
        | inl was ↦ resumed_kept id uri (v.held id uri was)
        | inr i ↦ inr (Elem-append_left id ids resumed i)
      ];
      below = λ m y id e i. omega (arith, v.below m y id e i, grows);
      resumed_below = λ id i. elim (Elem-append_cases id ids resumed i) [
        | inl a ↦ (fresh id a).1
        | inr b ↦ omega (arith, v.resumed_below id b, grows)
      ];
      exclusive = v.exclusive;
      apart = λ m y id e i r. elim (Elem-append_cases id ids resumed r) [
        | inl a ↦ omega (arith, v.below m y id e i, (fresh id a).0)
        | inr b ↦ v.apart m y id e i b
      ];
      unbroken = v.unbroken;
    }

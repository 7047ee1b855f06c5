-- ===== src/Common/Maps.antt =====
-- Go's `map[K]V` as an association list: the first entry of a key counts, and a write removes
-- the older ones. Iteration visits `entries`.
use Prim.Native.Nat.{◌+◌, ◌≤◌, ◌<◌}
use mathlib.Core.Path.{◌≡◌, refl}
use mathlib.Core.Logic.{◌⊎◌, inl, inr}
use mathlib.Core.Bool.{Bool, false}
use mathlib.Core.List.{List, [], ◌∷◌}
use mathlib.Core.Option.{Option, none, some}
use native.Mathlib.Omega.{arith}
use outrelay_relay.Common.Tests.{if◌then◌else◌, Bool-cases}
use outrelay_relay.Common.Lists.{length, Elem}
use outrelay_relay.Common.Interface.{Eq, ◌==◌, eq_iff, eq_refl}

abbrev pub Dict {ℓ κ} : Type ℓ → Type κ → Type (ℓ ⊔ κ)
Dict K V = List (K × V)

module _ {ℓ κ} {K : Type ℓ} {V : Type κ} ⦃e : Eq K⦄ where
  -- `m[k]`
  unfoldable pub get : K → Dict K V → Option V
  get k [] = none
  get k ((j, v) ∷ m) = if j == k then some v else get k m

  -- `delete(m, k)`
  unfoldable pub del : K → Dict K V → Dict K V
  del k [] = []
  del k ((j, v) ∷ m) = let rest = del k m in if j == k then rest else (j, v) ∷ rest

  -- `m[k] = v`
  unfoldable pub put : K → V → Dict K V → Dict K V
  unfolding del
  put k v m = (k, v) ∷ del k m

  -- `for k, v := range m { if !keep(k, v) { delete(m, k) } }`
  unfoldable pub retain : (K → V → Bool) → Dict K V → Dict K V
  unfolding del
  retain keep [] = []
  retain keep ((k, v) ∷ m) =
      let rest = retain keep m in if keep k v then (k, v) ∷ rest else del k rest

  -- What `range m` visits, in the model's order.
  unfoldable pub entries : Dict K V → List (K × V)
  unfolding del
  entries [] = []
  entries ((k, v) ∷ m) = (k, v) ∷ del k (entries m)

  pub get-empty : (k : K) → let m : Dict K V = [] in get k m ≡ none
  unfolding get
  get-empty k = refl

  pub get-del : (k j : K) (m : Dict K V) → get j (del k m) ≡ (if k == j then none else get j m)
  unfolding get del
  get-del k j [] = ground arith
  get-del k j ((i, v) ∷ m) = ground (arith, get-del k j m, eq_iff i k, eq_iff i j, eq_iff k j)

  pub get-put :
      (k j : K) (v : V) (m : Dict K V) → get j (put k v m) ≡ (if k == j then some v else get j m)
  unfolding get put
  get-put k j v m = ground (arith, get-del k j m)

  abbrev pub kept : (K → V → Bool) → K → Option V → Option V
  kept keep k none = none
  kept keep k (some v) = if keep k v then some v else none

  pub get-retain :
      (keep : K → V → Bool) (j : K) (m : Dict K V) → get j (retain keep m) ≡ kept keep j (get j m)
  unfolding get retain
  get-retain keep j [] = refl
  get-retain keep j ((k, v) ∷ m) =
      ground (arith, get-retain keep j m, get-del k j (retain keep m), eq_iff k j)

  pub get-entries : (j : K) (m : Dict K V) → get j (entries m) ≡ get j m
  unfolding get entries
  get-entries j [] = refl
  get-entries j ((k, v) ∷ m) = ground (arith, get-entries j m, get-del k j (entries m), eq_iff k j)

  pub size-del-le : (k : K) (m : Dict K V) → length (del k m) ≤ length m
  unfolding del
  size-del-le k [] = omega arith
  size-del-le k ((j, v) ∷ m) = ground (arith, size-del-le k m)

  pub size-put-le : (k : K) (v : V) (m : Dict K V) → length (put k v m) ≤ length m + 1
  unfolding put
  size-put-le k v m = omega (arith, size-del-le k m)

  pub size-retain-le : (keep : K → V → Bool) (m : Dict K V) → length (retain keep m) ≤ length m
  unfolding retain
  size-retain-le keep [] = omega arith
  size-retain-le keep ((k, v) ∷ m) =
      ground (arith, size-retain-le keep m, size-del-le k (retain keep m))

none≢some {ℓ κ} : {A : Type ℓ} {B : Type κ} {a : A} → none ≡ some a → B
none≢some h = cc

module _ {ℓ κ} {K : Type ℓ} {V : Type κ} ⦃e : Eq K⦄ where
  -- No key stands twice.
  abbrev pub Distinct : Dict K V → Type κ
  Distinct [] = Unit
  Distinct ((k, v) ∷ m) = (get k m ≡ none) × Distinct m

  Distinct-del : (k : K) (m : Dict K V) → Distinct m → Distinct (del k m)
  unfolding del
  Distinct-del k [] d = tt
  Distinct-del k ((j, v) ∷ m) d = ground (arith, Distinct-del k m d.1, get-del k j m)

  pub Distinct-entries : (m : Dict K V) → Distinct (entries m)
  unfolding entries
  Distinct-entries [] = tt
  Distinct-entries ((k, v) ∷ m) = (
    ground (arith, get-del k k (entries m), eq_refl k),
    Distinct-del k (entries m) (Distinct-entries m),
  )

  pub size-del-lt : (k : K) (v : V) (m : Dict K V) → get k m ≡ some v → length (del k m) < length m
  unfolding get del
  size-del-lt k v [] h = absurd (none≢some h)
  size-del-lt k v ((j, w) ∷ m) h = ground (arith, size-del-lt k v m, size-del-le k m)

module _ {K V : Type 0} ⦃e : Eq K⦄ where
  -- What Go says of the order in which `range` visits a map: every key of it, and nothing else.
  pub record IsRange (range : Dict K V → List K) : Type 0 where
    pub visits : (m : Dict K V) (k : K) (v : V) → get k m ≡ some v → Elem k (range m)
    pub only : (m : Dict K V) (k : K) → Elem k (range m) → (v : V) × (get k m ≡ some v)

  -- The model's own order is one of them.
  unfoldable pub keys : Dict K V → List K
  keys [] = []
  keys ((k, v) ∷ m) = k ∷ keys m

  keys-visits : (m : Dict K V) (k : K) (v : V) → get k m ≡ some v → Elem k (keys m)
  unfolding keys get
  keys-visits [] k v h = none≢some h
  keys-visits ((j, w) ∷ m) k v h = elim (Bool-cases (j == k)) [
    | inl same ↦ inl (ground (arith, eq_iff j k))
    | inr other ↦ inr (keys-visits m k v (ground arith))
  ]

  keys-only : (m : Dict K V) (k : K) → Elem k (keys m) → (v : V) × (get k m ≡ some v)
  unfolding keys get
  keys-only [] k h = absurd h
  keys-only ((j, w) ∷ m) k h = elim (Bool-cases (j == k)) [
    | inl same ↦ (w, ground arith)
    | inr other ↦ let (v, e) = keys-only m k (later other h) in (v, ground arith)
  ]
    where
      later : (j == k) ≡ false → (k ≡ j) ⊎ Elem k (keys m) → Elem k (keys m)
      later other (inl q) = absurd (ground (arith, eq_iff j k))
      later other (inr n) = n

  pub keys-IsRange : IsRange keys
  keys-IsRange = record { visits = keys-visits; only = keys-only }

pub ruleset dict_laws = (get-empty, get-del, get-put, get-retain)

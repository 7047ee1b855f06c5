-- ===== src/Registry/Samples.antt =====
-- Concrete fleets and heartbeats.
use outrelay_relay.Common.{
  ℕ, none, some, [], ◌∷◌, ◌++◌, ◌≡◌, ◌≢◌, refl, inl, Bytes, List, Elem, ◌↔◌, if◌then◌else◌, inr,
  Elem-cons, true, false, arith, if_cases, Bool-cases, All, ltb, sym,
}
use Prim.Native.Nat.{Ordering}
use mathlib.Core.Path.{ap₂}
use outrelay_relay.Text.{bytes_ltb}
use outrelay_relay.Registry.Order.{DistinctIds, Ascending, SameRelays, SortsById, successors_agree}
use outrelay_relay.Registry.Fleet.{by_id, RelayInstance, successors, IsSort}
use outrelay_relay.Registry.Routes.{successors_lem, Endpoint}

abbrev home : Bytes
home = 1 ∷ []

abbrev near_relay : RelayInstance
near_relay = record { id = 7 ∷ []; region = home; endpoint = 70 ∷ [] }

abbrev far_relay : RelayInstance
far_relay = record { id = 8 ∷ []; region = 2 ∷ []; endpoint = 80 ∷ [] }

abbrev fleet : List RelayInstance
fleet = far_relay ∷ near_relay ∷ []

-- A fleet that comes sorted.
abbrev as_is : List RelayInstance → List RelayInstance
as_is rs = rs

as_is-IsSort : IsSort as_is
as_is-IsSort rs r = (λ m. m, λ m. m)

successors_example :
    (near far : List Bytes) × (successors as_is (9 ∷ []) home fleet ≡ near ++ far)
    × ((e : Bytes)
        → (Elem e near ↔ Endpoint as_is (λ r. r.region ≡ home) (9 ∷ []) fleet e)
          × (Elem e far ↔ Endpoint as_is (λ r. r.region ≢ home) (9 ∷ []) fleet e))
successors_example = successors_lem as_is (9 ∷ []) home fleet as_is-IsSort

-- The relay of the region comes first.
fleet_runs : successors as_is (9 ∷ []) home fleet ≡ (70 ∷ []) ∷ (80 ∷ []) ∷ []
unfolding successors outrelay_relay.Common.bytes_beq
fleet_runs = refl

-- A sort by id.
unfoldable insert_by_id : RelayInstance → List RelayInstance → List RelayInstance
insert_by_id r [] = r ∷ []
insert_by_id r (s ∷ rs) =
    let rest = insert_by_id r rs in if bytes_ltb r.id s.id then r ∷ s ∷ rs else s ∷ rest

unfoldable sort_by_id : List RelayInstance → List RelayInstance
unfolding insert_by_id
sort_by_id [] = []
sort_by_id (r ∷ rs) = insert_by_id r (sort_by_id rs)

Elem-insert_by_id :
    (r : RelayInstance) (rs : List RelayInstance) (x : RelayInstance)
    → Elem x (insert_by_id r rs) ↔ Elem x (r ∷ rs)
unfolding insert_by_id
Elem-insert_by_id r [] x = (λ m. m, λ m. m)
Elem-insert_by_id r (s ∷ rs) x =
    let ih = Elem-insert_by_id r rs x in
    if_cases (λ (xs : List RelayInstance). Elem x xs ↔ Elem x (r ∷ s ∷ rs)) (bytes_ltb r.id s.id) _
      _ (λ first. (λ m. m, λ m. m)) λ later. (forth ih.0, back ih.1)
  where
    forth :
        (Elem x (insert_by_id r rs) → Elem x (r ∷ rs))
        → Elem x (s ∷ insert_by_id r rs)
        → Elem x (r ∷ s ∷ rs)
    forth ih (inl e) = inr (inl e)
    forth ih (inr m) = elim (ih m) [ inl e ↦ inl e | inr n ↦ inr (inr n) ]

    back :
        (Elem x (r ∷ rs) → Elem x (insert_by_id r rs))
        → Elem x (r ∷ s ∷ rs)
        → Elem x (s ∷ insert_by_id r rs)
    back ih (inl e) = inr (ih (inl e))
    back ih (inr (inl e)) = inl e
    back ih (inr (inr m)) = inr (ih (inr m))

sort_by_id-IsSort : IsSort sort_by_id
unfolding sort_by_id
sort_by_id-IsSort [] x = (λ m. m, λ m. m)
sort_by_id-IsSort (r ∷ rs) x = (
  λ m.
      Elem-cons x r (sort_by_id rs) rs (sort_by_id-IsSort rs x).0
        ((Elem-insert_by_id r (sort_by_id rs) x).0 m),
  λ m.
      (Elem-insert_by_id r (sort_by_id rs) x).1
        (Elem-cons x r rs (sort_by_id rs) (sort_by_id-IsSort rs x).1 m),
)

bytes_ltb_trans :
    (s t u : Bytes) → bytes_ltb s t ≡ true → bytes_ltb t u ≡ true → bytes_ltb s u ≡ true
unfolding bytes_ltb
bytes_ltb_trans s t [] h k = absurd (ground arith)
bytes_ltb_trans s [] (c ∷ u) h k = absurd (ground arith)
bytes_ltb_trans [] (b ∷ t) (c ∷ u) h k = refl
bytes_ltb_trans (a ∷ s) (b ∷ t) (c ∷ u) h k = ground (arith, bytes_ltb_trans s t u)

bytes_ltb_total : (s t : Bytes) → s ≢ t → bytes_ltb s t ≡ false → bytes_ltb t s ≡ true
unfolding bytes_ltb
bytes_ltb_total [] [] differ h = absurd (differ refl)
bytes_ltb_total [] (b ∷ t) differ h = ground arith
bytes_ltb_total (a ∷ s) [] differ h = refl
bytes_ltb_total (a ∷ s) (b ∷ t) differ h = elim (Bool-cases (ltb b a)) [
  | inl less ↦ ground (arith, less)
  | inr more ↦
      let same : a ≡ b = ground (arith, h, more) in
      ground (
        arith,
        h,
        same,
        more,
        bytes_ltb_total s t λ e. differ (ap₂ (λ (c : ℕ) (u : Bytes). c ∷ u) same e),
      )
]

insert_by_id-All :
    (P : RelayInstance → Type 0) (r : RelayInstance) (rs : List RelayInstance)
    → P r
    → All P rs
    → All P (insert_by_id r rs)
unfolding insert_by_id
insert_by_id-All P r [] here rest = (here, tt)
insert_by_id-All P r (s ∷ rs) here (next, rest) =
    if_cases (All P) (bytes_ltb r.id s.id) _ _ (λ first. (here, (next, rest)))
      λ later. (next, insert_by_id-All P r rs here rest)

All-map :
    (P Q : RelayInstance → Type 0) (rs : List RelayInstance)
    → ((s : RelayInstance) → P s → Q s)
    → All P rs
    → All Q rs
All-map P Q [] f all = tt
All-map P Q (r ∷ rs) f (here, rest) = (f r here, All-map P Q rs f rest)

lt_by_id : (r s : RelayInstance) → (by_id r s ≡ Ordering.lt) ↔ (bytes_ltb r.id s.id ≡ true)
unfolding by_id
lt_by_id r s = ground arith

insert_by_id-Ascending :
    (r : RelayInstance) (rs : List RelayInstance)
    → All (λ s. s.id ≢ r.id) rs
    → Ascending rs
    → Ascending (insert_by_id r rs)
unfolding insert_by_id
insert_by_id-Ascending r [] apart a = (tt, tt)
insert_by_id-Ascending r (s ∷ rs) (differ, apart) (first, a) =
    if_cases Ascending (bytes_ltb r.id s.id) _ _
      (λ less. (
        (
          (lt_by_id r s).1 less,
          All-map (λ t. by_id s t ≡ Ordering.lt) (λ t. by_id r t ≡ Ordering.lt) rs
              (λ t q. (lt_by_id r t).1 (bytes_ltb_trans r.id s.id t.id less ((lt_by_id s t).0 q)))
              first,
        ),
        (first, a),
      ))
      λ more. (
        insert_by_id-All (λ t. by_id s t ≡ Ordering.lt) r rs
            ((lt_by_id s r).1 (bytes_ltb_total r.id s.id (λ e. differ (sym e)) more)) first,
        insert_by_id-Ascending r rs apart a,
      )

sort_by_id-All :
    (P : RelayInstance → Type 0) (rs : List RelayInstance) → All P rs → All P (sort_by_id rs)
unfolding sort_by_id
sort_by_id-All P [] all = tt
sort_by_id-All P (r ∷ rs) (here, rest) =
    insert_by_id-All P r (sort_by_id rs) here (sort_by_id-All P rs rest)

sort_by_id-Ascending : (rs : List RelayInstance) → DistinctIds rs → Ascending (sort_by_id rs)
unfolding sort_by_id
sort_by_id-Ascending [] distinct = tt
sort_by_id-Ascending (r ∷ rs) (here, rest) =
    insert_by_id-Ascending r (sort_by_id rs) (sort_by_id-All (λ s. s.id ≢ r.id) rs here)
      (sort_by_id-Ascending rs rest)

sort_by_id-SortsById : SortsById sort_by_id
sort_by_id-SortsById = record { elements = sort_by_id-IsSort; ascending = sort_by_id-Ascending }

-- The same two relays in the other order.
abbrev turned : List RelayInstance
turned = near_relay ∷ far_relay ∷ []

fleet-DistinctIds : DistinctIds fleet
fleet-DistinctIds = ((λ h. ground (arith, h), tt), (tt, tt))

turned-DistinctIds : DistinctIds turned
turned-DistinctIds = ((λ h. ground (arith, h), tt), (tt, tt))

turned_same : SameRelays fleet turned
turned_same r = (swap, swap)
  where
    swap : {a b : RelayInstance} → Elem r (a ∷ b ∷ []) → Elem r (b ∷ a ∷ [])
    swap (inl e) = inr (inl e)
    swap (inr (inl e)) = inl e
    swap (inr (inr m)) = elim m [ ]

successors_agree_example :
    successors sort_by_id (9 ∷ []) home fleet ≡ successors sort_by_id (9 ∷ []) home turned
successors_agree_example =
    successors_agree sort_by_id sort_by_id sort_by_id-SortsById sort_by_id-SortsById (9 ∷ []) home
      fleet turned fleet-DistinctIds turned-DistinctIds turned_same

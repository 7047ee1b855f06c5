-- ===== src/Registry/Order.antt =====
-- pkg/registry/fleet.go: the successor list does not depend on the order in which the controller lists the
-- fleet.
use Prim.Native.Nat.{Ordering}
use mathlib.Core.Path.{ap₂}
use outrelay_relay.Registry.Routes.{split_fleet_sound}
use outrelay_relay.Text.{bytes_ltb}
use outrelay_relay.Common.{
  [], ◌∷◌, Bytes, List, true, false, ◌≡◌, ◌≢◌, ◌↔◌, ◌++◌, inl, inr, refl, arith, sym, subst, Elem,
  All, ◌==◌, bytes_eq, if_cases, ◌∙◌, ◌||◌,
}
use outrelay_relay.Registry.Fleet.{RelayInstance, split_fleet, by_id, endpoints, successors, IsSort}

bytes_ltb_asym : (s t : Bytes) → bytes_ltb s t ≡ true → bytes_ltb t s ≡ false
unfolding bytes_ltb
bytes_ltb_asym [] [] h = refl
bytes_ltb_asym [] (b ∷ t) h = refl
bytes_ltb_asym (a ∷ s) [] h = ground arith
bytes_ltb_asym (a ∷ s) (b ∷ t) h = ground (arith, bytes_ltb_asym s t)

by_id_asym : (a b : RelayInstance) → by_id a b ≡ Ordering.lt → by_id b a ≡ Ordering.lt → ⊥
unfolding by_id
by_id_asym a b h k = ground (arith, bytes_ltb_asym a.id b.id)

-- Each relay has an id of its own.
abbrev pub DistinctIds : List RelayInstance → Type 0
DistinctIds [] = Unit
DistinctIds (r ∷ rs) = All (λ s. s.id ≢ r.id) rs × DistinctIds rs

abbrev pub Ascending : List RelayInstance → Type 0
Ascending [] = Unit
Ascending (r ∷ rs) = All (λ s. by_id r s ≡ Ordering.lt) rs × Ascending rs

abbrev pub SameRelays : List RelayInstance → List RelayInstance → Type 0
SameRelays rs ss = (r : RelayInstance) → Elem r rs ↔ Elem r ss

-- What `slices.SortFunc` promises of a list whose ids differ: the same elements, in ascending order.
pub record SortsById (sort : List RelayInstance → List RelayInstance) : Type 0 where
  pub elements : IsSort sort
  pub ascending : (rs : List RelayInstance) → DistinctIds rs → Ascending (sort rs)

All-Elem :
    (P : RelayInstance → Type 0) (rs : List RelayInstance) (r : RelayInstance)
    → All P rs
    → Elem r rs
    → P r
All-Elem P [] r all m = absurd m
All-Elem P (s ∷ rs) r (here, rest) (inl e) = subst P (sym e) here
All-Elem P (s ∷ rs) r (here, rest) (inr m) = All-Elem P rs r rest m

-- Two ascending lists of the same relays are one list.
Ascending-unique :
    (rs ss : List RelayInstance) → Ascending rs → Ascending ss → SameRelays rs ss → rs ≡ ss
Ascending-unique [] [] a b same = refl
Ascending-unique [] (s ∷ ss) a b same = absurd ((same s).1 (inl refl))
Ascending-unique (r ∷ rs) [] a b same = absurd ((same r).0 (inl refl))
Ascending-unique (r ∷ rs) (s ∷ ss) (first, a) (head, b) same =
    let heads : r ≡ s = least ((same r).0 (inl refl)) ((same s).1 (inl refl)) in
    ap₂ (λ (x : RelayInstance) (xs : List RelayInstance). x ∷ xs) heads
      (Ascending-unique rs ss a b λ t. (
        λ m.
            later t r s ss (sym heads) (All-Elem (λ x. by_id r x ≡ Ordering.lt) rs t first m)
              ((same t).0 (inr m)),
        λ m.
            later t s r rs heads (All-Elem (λ x. by_id s x ≡ Ordering.lt) ss t head m)
              ((same t).1 (inr m)),
      ))
  where
    least : Elem r (s ∷ ss) → Elem s (r ∷ rs) → r ≡ s
    least (inl e) k = e
    least (inr m) (inl e) = sym e
    least (inr m) (inr n) = absurd (
        by_id_asym s r (All-Elem (λ x. by_id s x ≡ Ordering.lt) ss r head m)
          (All-Elem (λ x. by_id r x ≡ Ordering.lt) rs s first n))

    later :
        (t x y : RelayInstance) (ys : List RelayInstance)
        → y ≡ x
        → by_id x t ≡ Ordering.lt
        → Elem t (y ∷ ys)
        → Elem t ys
    later t x y ys e lt (inr m) = m
    later t x y ys e lt (inl q) =
        let loop : by_id t t ≡ Ordering.lt =
          subst (λ (z : RelayInstance). by_id z t ≡ Ordering.lt) (sym (q ∙ e)) lt in
        absurd (by_id_asym t t loop loop)

split_fleet-All :
    (P : RelayInstance → Type 0) (self_id region : Bytes) (fleet : List RelayInstance)
    → All P fleet
    → All P (split_fleet self_id region fleet).0 × All P (split_fleet self_id region fleet).1
unfolding split_fleet
split_fleet-All P self_id region [] all = (tt, tt)
split_fleet-All P self_id region (r ∷ fleet) (here, rest) =
    let (same, other) = split_fleet-All P self_id region fleet rest in
    if_cases (λ (x : List RelayInstance × List RelayInstance). All P x.0 × All P x.1)
      (r.id == self_id || r.endpoint == []) _ _ (λ left_out. (same, other))
      λ kept.
        if_cases (λ (x : List RelayInstance × List RelayInstance). All P x.0 × All P x.1)
          (r.region == region) _ _ (λ near. ((here, same), other)) λ far. (same, (here, other))

split_fleet-DistinctIds :
    (self_id region : Bytes) (fleet : List RelayInstance)
    → DistinctIds fleet
    → DistinctIds (split_fleet self_id region fleet).0
      × DistinctIds (split_fleet self_id region fleet).1
unfolding split_fleet
split_fleet-DistinctIds self_id region [] distinct = (tt, tt)
split_fleet-DistinctIds self_id region (r ∷ fleet) (here, rest) =
    let (same, other) = split_fleet-DistinctIds self_id region fleet rest in
    let (apart, apart_too) = split_fleet-All (λ s. s.id ≢ r.id) self_id region fleet here in
    if_cases (λ (x : List RelayInstance × List RelayInstance). DistinctIds x.0 × DistinctIds x.1)
      (r.id == self_id || r.endpoint == []) _ _ (λ left_out. (same, other))
      λ kept.
        if_cases
          (λ (x : List RelayInstance × List RelayInstance). DistinctIds x.0 × DistinctIds x.1)
          (r.region == region) _ _ (λ near. ((apart, same), other))
          λ far. (same, (apart_too, other))

-- The relays of one half of one fleet are those of the same half of the other.
split_fleet_same :
    (self_id region : Bytes) (fleet fleet' : List RelayInstance) (r : RelayInstance)
    → (Elem r fleet → Elem r fleet')
    → (Elem r (split_fleet self_id region fleet).0 → Elem r (split_fleet self_id region fleet').0)
      × (Elem r (split_fleet self_id region fleet).1 → Elem r (split_fleet self_id region fleet').1)
split_fleet_same self_id region fleet fleet' r moves = (
  λ m.
      let (found, fit, near) = (split_fleet_sound (λ rs. rs) self_id region fleet r).0.0 m in
      elim ((split_fleet_sound (λ rs. rs) self_id region fleet' r).1 (moves found) fit) [
        | inl here ↦ here
        | inr there ↦
            absurd (((split_fleet_sound (λ rs. rs) self_id region fleet' r).0.1 there).2 near)
      ],
  λ m.
      let (found, fit, far) = (split_fleet_sound (λ rs. rs) self_id region fleet r).0.1 m in
      elim ((split_fleet_sound (λ rs. rs) self_id region fleet' r).1 (moves found) fit) [
        | inl here ↦
            absurd (far ((split_fleet_sound (λ rs. rs) self_id region fleet' r).0.0 here).2)
        | inr there ↦ there
      ],
)

module _ (sort sort' : List RelayInstance → List RelayInstance) (sorts : SortsById sort)
    (sorts' : SortsById sort') where
  sorted_alike :
      (rs ss : List RelayInstance)
      → DistinctIds rs
      → DistinctIds ss
      → SameRelays rs ss
      → sort rs ≡ sort' ss
  sorted_alike rs ss distinct distinct' same =
      Ascending-unique (sort rs) (sort' ss) (sorts.ascending rs distinct)
        (sorts'.ascending ss distinct')
        λ r. (
          λ m. (sorts'.elements ss r).1 ((same r).0 ((sorts.elements rs r).0 m)),
          λ m. (sorts.elements rs r).1 ((same r).1 ((sorts'.elements ss r).0 m)),
        )

  -- With sorts that keep the elements and put them in the order of byID, two fleets in which no
  -- two relays share an id and which hold the same relays, in whatever order, give the same
  -- successor list.
  pub successors_agree :
      (self_id region : Bytes) (fleet fleet' : List RelayInstance)
      → DistinctIds fleet
      → DistinctIds fleet'
      → SameRelays fleet fleet'
      → successors sort self_id region fleet ≡ successors sort' self_id region fleet'
  unfolding successors
  successors_agree self_id region fleet fleet' distinct distinct' same =
      let (near, far) = split_fleet-DistinctIds self_id region fleet distinct in
      let (near', far') = split_fleet-DistinctIds self_id region fleet' distinct' in
      ap₂ (λ (xs ys : List RelayInstance). endpoints xs ++ endpoints ys)
        (sorted_alike _ _ near near' λ r. (
          (split_fleet_same self_id region fleet fleet' r (same r).0).0,
          (split_fleet_same self_id region fleet' fleet r (same r).1).0,
        ))
        (sorted_alike _ _ far far' λ r. (
          (split_fleet_same self_id region fleet fleet' r (same r).0).1,
          (split_fleet_same self_id region fleet' fleet r (same r).1).1,
        ))

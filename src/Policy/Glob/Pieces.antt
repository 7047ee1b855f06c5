-- ===== src/Policy/Glob/Pieces.antt =====
-- The pieces of a pattern: what finding the leftmost occurrence of each one amounts to.
use outrelay_relay.Common.{
  ℕ, suc, ◌+◌, ◌-◌, ◌≤◌, ◌≡◌, refl, sym, ap, ◌∙◌, true, false, Option, none, some, [], ◌∷◌, ◌++◌,
  inl, inr, length, length-append, drop, take, eq_iff, nat_eq, bytes_eq, Bytes, arith, Bool-cases,
  Option-cases, zero,
}
use mathlib.Core.List.{append_assoc}
use outrelay_relay.Policy.Glob.{has_prefix, has_suffix, index}

pub has_prefix-append : (p t : Bytes) → has_prefix (p ++ t) p ≡ true
unfolding has_prefix
has_prefix-append [] t = refl
has_prefix-append (c ∷ p) t = ground (arith, has_prefix-append p t)

pub has_prefix→append : (s p : Bytes) → has_prefix s p ≡ true → s ≡ p ++ drop (length p) s
unfolding has_prefix
has_prefix→append s [] h = refl
has_prefix→append [] (c ∷ p) h = cc
has_prefix→append (d ∷ s) (c ∷ p) h = ground (arith, has_prefix→append s p)

pub drop-append : (p t : Bytes) → drop (length p) (p ++ t) ≡ t
drop-append [] t = refl
drop-append (c ∷ p) t = drop-append p t

take-append-drop : (n : ℕ) (s : Bytes) → take n s ++ drop n s ≡ s
take-append-drop zero s = refl
take-append-drop (suc n) [] = refl
take-append-drop (suc n) (c ∷ s) = ap (λ t. c ∷ t) (take-append-drop n s)

pub has_suffix→append : (s p : Bytes) → has_suffix s p ≡ true → (w : Bytes) × (s ≡ w ++ p)
unfolding has_suffix
has_suffix→append s p h =
    let n = length s - length p in
    (take n s, ground (arith, take-append-drop n s, eq_iff (drop n s) p))

pub append→has_suffix : (w p : Bytes) → has_suffix (w ++ p) p ≡ true
unfolding has_suffix
append→has_suffix w p =
    let e : length (w ++ p) - length p ≡ length w = omega (arith, length-append w p) in
    rw e (ground (arith, drop-append w p, eq_iff (drop (length w) (w ++ p)) p, length-append w p))

-- Of two cuts of one text, the earlier leaves the longer rest.
earlier_cut : (a x b t : Bytes) → a ++ x ≡ b ++ t → length a ≤ length b → (u : Bytes) × (x ≡ u ++ t)
earlier_cut [] x b t e h = (b, e)
earlier_cut (c ∷ a) x [] t e h = absurd (omega arith)
earlier_cut (c ∷ a) x (d ∷ b) t e h = earlier_cut a x b t (cc) (omega arith)

-- What follows the leftmost occurrence of `p`.
unfoldable pub cut : Bytes → Bytes → Option Bytes
cut s p = elim (index s p) [ none ↦ none | some i ↦ some (drop (i + length p) s) ]

cut_here : (s p : Bytes) → has_prefix s p ≡ true → cut s p ≡ some (drop (length p) s)
unfolding cut index
cut_here [] p h = ground arith
cut_here (c ∷ s) p h = ground arith

cut_later : (c : ℕ) (s p : Bytes) → has_prefix (c ∷ s) p ≡ false → cut (c ∷ s) p ≡ cut s p
unfolding cut index
cut_later c s p h = elim (Option-cases (index s p)) [
  | inl e ↦ ground arith
  | inr (i, e) ↦ let shift : suc i + length p ≡ suc (i + length p) = omega arith in ground arith
]

cut_nowhere : (p : Bytes) → has_prefix [] p ≡ false → cut [] p ≡ none
unfolding cut index
cut_nowhere p h = ground arith

cut_sound_here : (s p t : Bytes) → has_prefix s p ≡ true → cut s p ≡ some t → s ≡ p ++ t
cut_sound_here s p t h e = ground (arith, has_prefix→append s p h, cut_here s p h)

pub cut_sound : (s p t : Bytes) → cut s p ≡ some t → (w : Bytes) × (s ≡ w ++ (p ++ t))
cut_sound [] p t e = elim (Bool-cases (has_prefix [] p)) [
  | inl h ↦ ([], cut_sound_here [] p t h e)
  | inr h ↦ cc (cut_nowhere p h)
]
cut_sound (c ∷ s) p t e = elim (Bool-cases (has_prefix (c ∷ s) p)) [
  | inl h ↦ ([], cut_sound_here (c ∷ s) p t h e)
  | inr h ↦ let (w, q) = cut_sound s p t (sym (cut_later c s p h) ∙ e) in (c ∷ w, ap (λ x. c ∷ x) q)
]

pub cut_complete : (w p t : Bytes) → (u : Bytes) × (cut (w ++ (p ++ t)) p ≡ some (u ++ t))
cut_complete [] p t = ([], cut_here (p ++ t) p (has_prefix-append p t) ∙ ap some (drop-append p t))
cut_complete (d ∷ w) p t =
    let s : Bytes = d ∷ (w ++ (p ++ t)) in
    elim (Bool-cases (has_prefix s p)) [
      | inl h ↦
          let (u, q) =
            earlier_cut p (drop (length p) s) ((d ∷ w) ++ p) t
              (sym (has_prefix→append s p h) ∙ sym (append_assoc (d ∷ w) p t))
              (omega (arith, length-append w p)) in
          (u, cut_here s p h ∙ ap some q)
      | inr h ↦ let (u, q) = cut_complete w p t in (u, cut_later d (w ++ (p ++ t)) p h ∙ q)
    ]

-- ===== src/Policy/Glob/Correct.antt =====
-- `matchGlob` decides the usual meaning of a pattern: `*` stands for any run of bytes, every other
-- byte for itself.
use outrelay_relay.Common.{
  ℕ, ◌≡◌, ◌≢◌, refl, sym, ap, Bool, true, false, not, List, [], ◌∷◌, ◌++◌, ◌↔◌, inl, inr, length,
  drop, ◌==◌, eq_iff, nat_eq, bytes_eq, Bytes, arith, Bool-cases, if_cases, subst, ◌⊎◌,
}
use outrelay_relay.Policy.Glob.{
  star, has_prefix, contains_star, split_star, match_split, match_glob,
}
use outrelay_relay.Policy.Glob.Pieces.{has_prefix-append, has_prefix→append, drop-append}
use outrelay_relay.Policy.Glob.Sequence.{
  Pieces, Pieces-append, match_pieces→Pieces, Pieces→match-Pieces,
}

pub data Glob : Bytes → Bytes → Type 0 where
  done : Glob [] []
  char : {c : ℕ} {p s : Bytes} → c ≢ star → Glob p s → Glob (c ∷ p) (c ∷ s)
  skip : {c : ℕ} {p s : Bytes} → c ≡ star → Glob p s → Glob (c ∷ p) s
  take_any : {c d : ℕ} {p s : Bytes} → c ≡ star → Glob (c ∷ p) s → Glob (c ∷ p) (d ∷ s)

-- The first piece begins the text, and the others follow.
Fits : Bytes × List Bytes → Bytes → Type 0
unfolding Pieces
Fits (first, []) s = s ≡ first
Fits (first, p ∷ ps) s = (t : Bytes) × (s ≡ first ++ t) × Pieces (p ∷ ps) t

Fits-cons :
    (c : ℕ) (first : Bytes) (others : List Bytes) (s : Bytes)
    → Fits (first, others) s
    → Fits (c ∷ first, others) (c ∷ s)
unfolding Fits
Fits-cons c first [] s e = ap (λ x. c ∷ x) e
Fits-cons c first (p ∷ ps) s (t, e, h) = (t, ap (λ x. c ∷ x) e, h)

Fits→Pieces :
    (first : Bytes) (others : List Bytes) (s : Bytes)
    → Fits (first, others) s
    → Pieces (first ∷ others) s
unfolding Fits
Fits→Pieces first [] s e = ([], e)
Fits→Pieces first (p ∷ ps) s (t, e, h) = ([], t, e, h)

Pieces→Glob :
    (first : Bytes) (others : List Bytes) (p : Bytes) (c : ℕ)
    → c ≡ star
    → ((s : Bytes) → Fits (first, others) s → Glob p s)
    → (s : Bytes) → Pieces (first ∷ others) s
    → Glob (c ∷ p) s
unfolding Fits
Pieces→Glob first [] p c e ih s (w, q) = run w s q
  where
    run : (w s : Bytes) → s ≡ w ++ first → Glob (c ∷ p) s
    run [] s q = skip e (ih s q)
    run (d ∷ w) [] q = cc
    run (d ∷ w) (x ∷ s) q = take_any e (run w s (cc))
Pieces→Glob first (r ∷ rs) p c e ih s (w, t, q, h) = run w s q
  where
    run : (w s : Bytes) → s ≡ w ++ (first ++ t) → Glob (c ∷ p) s
    run [] s q = skip e (ih s (t, q, h))
    run (d ∷ w) [] q = cc
    run (d ∷ w) (x ∷ s) q = take_any e (run w s (cc))

Fits-uncons :
    (c : ℕ) (first : Bytes) (others : List Bytes) (p : Bytes)
    → c ≢ star
    → ((s : Bytes) → Fits (first, others) s → Glob p s)
    → (s : Bytes) → Fits (c ∷ first, others) s
    → Glob (c ∷ p) s
unfolding Fits
Fits-uncons c first [] p ne ih s q = rw q (char ne (ih first refl))
Fits-uncons c first (r ∷ rs) p ne ih s (t, q, h) = rw q (char ne (ih (first ++ t) (t, refl, h)))

split_star-star :
    (c : ℕ) (p : Bytes) → c ≡ star → split_star (c ∷ p) ≡ ([], (split_star p).0 ∷ (split_star p).1)
unfolding split_star
split_star-star c p e = ground arith

split_star_char :
    (c : ℕ) (p : Bytes) → c ≢ star → split_star (c ∷ p) ≡ (c ∷ (split_star p).0, (split_star p).1)
unfolding split_star
split_star_char c p e = ground arith

Fits-star_iff :
    (first : Bytes) (others : List Bytes) (s : Bytes)
    → Fits ([], first ∷ others) s ↔ Pieces (first ∷ others) s
unfolding Fits
Fits-star_iff first others s =
    (λ (t, q, h). subst (Pieces (first ∷ others)) (sym q) h, λ h. (s, refl, h))

dec_star : (c : ℕ) → (c ≡ star) ⊎ (c ≢ star)
dec_star c = elim (Bool-cases (c == star)) [
  | inl e ↦ inl ((eq_iff c star).0 e)
  | inr e ↦ inr (λ q. ground (arith, eq_iff c star))
]

Fits→Glob_nil : (s : Bytes) → Fits (split_star []) s → Glob [] s
unfolding Fits split_star
Fits→Glob_nil s q = rw q done

Fits→Glob : (p s : Bytes) → Fits (split_star p) s → Glob p s
Fits→Glob [] s h = Fits→Glob_nil s h
Fits→Glob (c ∷ p) s h = elim (dec_star c) [
  | inl e ↦
      Pieces→Glob (split_star p).0 (split_star p).1 p c e (Fits→Glob p) s
        ((Fits-star_iff _ _ s).0 (subst (λ x. Fits x s) (split_star-star c p e) h))
  | inr e ↦
      Fits-uncons c (split_star p).0 (split_star p).1 p e (Fits→Glob p) s
        (subst (λ x. Fits x s) (split_star_char c p e) h)
]

Glob→Fits : {p s : Bytes} → Glob p s → Fits (split_star p) s
Glob→Fits done = unfold Fits split_star in refl
Glob→Fits (char {c = c} {p = p} {s = s} ne g) =
    subst (λ x. Fits x (c ∷ s)) (sym (split_star_char c p ne))
      (Fits-cons c (split_star p).0 (split_star p).1 s (Glob→Fits g))
Glob→Fits (skip {c = c} {p = p} {s = s} e g) =
    subst (λ x. Fits x s) (sym (split_star-star c p e))
      ((Fits-star_iff _ _ s).1 (Fits→Pieces (split_star p).0 (split_star p).1 s (Glob→Fits g)))
Glob→Fits (take_any {c = c} {d = d} {p = p} {s = s} e g) =
    subst (λ x. Fits x (d ∷ s)) (sym (split_star-star c p e))
      ((Fits-star_iff _ _ (d ∷ s)).1 (
        Pieces-append ((split_star p).0 ∷ (split_star p).1) (d ∷ []) s
          ((Fits-star_iff _ _ s).0 (subst (λ x. Fits x s) (split_star-star c p e) (Glob→Fits g)))))

-- With a star in it, a pattern has a piece after the first.
contains-split :
    (p : Bytes)
    → contains_star p ≡ true
    → (first q : Bytes) × (qs : List Bytes) × (split_star p ≡ (first, q ∷ qs))
unfolding contains_star split_star
contains-split [] h = cc
contains-split (c ∷ p) h = elim (dec_star c) [
  | inl e ↦ ([], (split_star p).0, (split_star p).1, ground arith)
  | inr e ↦
      let (first, q, qs, found) = contains-split p (ground arith) in
      (c ∷ first, q, qs, ground arith)
]

match_split_iff :
    (first q : Bytes) (qs : List Bytes) (s : Bytes)
    → (match_split (first, q ∷ qs) s ≡ true) ↔ Fits (first, q ∷ qs) s
unfolding match_split Fits
match_split_iff first q qs s = (
  λ h. elim (Bool-cases (has_prefix s first)) [
    | inl yes_prefix ↦ (
      drop (length first) s,
      has_prefix→append s first yes_prefix,
      match_pieces→Pieces q qs _ (ground arith),
    )
    | inr no_prefix ↦ absurd (ground arith)
  ],
  λ (t, e, h). rw e (
      ground (arith, has_prefix-append first t, drop-append first t, Pieces→match-Pieces q qs t h)),
)

split_plain : (p : Bytes) → contains_star p ≡ false → split_star p ≡ (p, [])
unfolding contains_star split_star
split_plain [] h = refl
split_plain (c ∷ p) h = ground (arith, split_plain p)

Fits-nil_iff : (p s : Bytes) → Fits (p, []) s ↔ (s ≡ p)
unfolding Fits
Fits-nil_iff p s = (λ q. q, λ q. q)

pub Glob-plain : (p s : Bytes) → contains_star p ≡ false → Glob p s ↔ (s ≡ p)
Glob-plain p s h = (
  λ g. (Fits-nil_iff p s).0 (subst (λ x. Fits x s) (split_plain p h) (Glob→Fits g)),
  λ q. Fits→Glob p s (subst (λ x. Fits x s) (sym (split_plain p h)) ((Fits-nil_iff p s).1 q)),
)

Glob-any : (s : Bytes) → Glob (star ∷ []) s
Glob-any [] = skip refl done
Glob-any (c ∷ s) = take_any refl (Glob-any s)

Glob-split :
    (p s : Bytes) → contains_star p ≡ true → (match_split (split_star p) s ≡ true) ↔ Glob p s
Glob-split p s h =
    let (first, q, qs, found) = contains-split p h in
    let decides = match_split_iff first q qs s in
    (
      λ m. Fits→Glob p s (
          subst (λ x. Fits x s) (sym found)
            (decides.0 (subst (λ x. match_split x s ≡ true) found m))),
      λ g.
          subst (λ x. match_split x s ≡ true) (sym found)
            (decides.1 (subst (λ x. Fits x s) found (Glob→Fits g))),
    )

-- matchGlob answers true exactly on the texts that match the pattern, a star standing for any run
-- of bytes, the empty one included.
pub match_glob-Glob : (pattern s : Bytes) → (match_glob pattern s ≡ true) ↔ Glob pattern s
unfolding match_glob
match_glob-Glob pattern s = if_cases Tells (pattern == []) _ _ empty λ _.
    if_cases Tells (not (contains_star pattern)) _ _ plain λ starred.
      if_cases Tells (pattern == star ∷ []) _ _ any (λ _. Glob-split pattern s (ground arith))
  where
    Tells : Bool → Type 0
    Tells b = (b ≡ true) ↔ Glob pattern s

    plain : not (contains_star pattern) ≡ true → Tells (pattern == s)
    plain h =
        let means = Glob-plain pattern s (ground arith) in
        (λ e. means.1 (sym ((eq_iff pattern s).0 e)), λ g. (eq_iff pattern s).1 (sym (means.0 g)))

    empty : (pattern == []) ≡ true → Tells (s == [])
    empty h =
        let e = (eq_iff pattern []).0 h in
        (
          λ q. rw (e, (eq_iff s []).0 q) done,
          λ g.
              (eq_iff s []).1
                ((Glob-plain [] s (unfold contains_star in refl)).0 (subst (λ p. Glob p s) e g)),
        )

    any : (pattern == star ∷ []) ≡ true → Tells true
    any h = (λ _. rw ((eq_iff pattern (star ∷ [])).0 h) (Glob-any s), λ _. refl)

-- ===== src/Policy/Glob/Sequence.antt =====
-- The pieces of a pattern after its first star, and the loop of `matchGlob` over them.
use outrelay_relay.Common.{
  ◌≡◌, sym, ap, ◌∙◌, true, false, none, some, List, [], ◌∷◌, ◌++◌, inl, inr, nat_eq, bytes_eq,
  Bytes, arith, Option-cases,
}
use mathlib.Core.List.{append_assoc}
use outrelay_relay.Policy.Glob.{index, match_pieces}
use outrelay_relay.Policy.Glob.Pieces.{
  has_suffix→append, append→has_suffix, cut, cut_sound, cut_complete,
}

-- The pieces after a star occur in order, and the last one ends the text.
unfoldable pub Pieces : List Bytes → Bytes → Type 0
Pieces [] s = ⊥
Pieces (last ∷ []) s = (w : Bytes) × (s ≡ w ++ last)
Pieces (p ∷ q ∷ ps) s = (w : Bytes) × (t : Bytes) × (s ≡ w ++ (p ++ t)) × Pieces (q ∷ ps) t

pub Pieces-append : (ps : List Bytes) (u s : Bytes) → Pieces ps s → Pieces ps (u ++ s)
unfolding Pieces
Pieces-append [] u s h = h
Pieces-append (last ∷ []) u s (w, e) = (u ++ w, ap (◌++◌ u) e ∙ sym (append_assoc u w last))
Pieces-append (p ∷ q ∷ ps) u s (w, t, e, h) =
    (u ++ w, t, ap (◌++◌ u) e ∙ sym (append_assoc u w (p ++ t)), h)

match_pieces_step :
    (p q : Bytes) (ps : List Bytes) (s : Bytes)
    → match_pieces (p ∷ q ∷ ps) s
      ≡ elim (cut s p) [ none ↦ false | some t ↦ match_pieces (q ∷ ps) t ]
unfolding match_pieces cut
match_pieces_step p q ps s = elim (Option-cases (index s p)) [
  | inl e ↦ ground arith
  | inr (i, e) ↦ ground arith
]

pub match_pieces→Pieces :
    (p : Bytes) (ps : List Bytes) (s : Bytes) → match_pieces (p ∷ ps) s ≡ true → Pieces (p ∷ ps) s
unfolding Pieces
match_pieces→Pieces p [] s h = has_suffix→append s p (unfold match_pieces in h)
match_pieces→Pieces p (q ∷ ps) s h = elim (Option-cases (cut s p)) [
  | inl e ↦ absurd (ground (arith, match_pieces_step p q ps s))
  | inr (t, e) ↦
      let (w, split) = cut_sound s p t e in
      (w, t, split, match_pieces→Pieces q ps t (ground (arith, match_pieces_step p q ps s)))
]

pub Pieces→match-Pieces :
    (p : Bytes) (ps : List Bytes) (s : Bytes) → Pieces (p ∷ ps) s → match_pieces (p ∷ ps) s ≡ true
unfolding Pieces
Pieces→match-Pieces p [] s (w, e) = rw e (unfold match_pieces in append→has_suffix w p)
Pieces→match-Pieces p (q ∷ ps) s (w, t, e, h) =
    let (u, found) = cut_complete w p t in
    let rest = Pieces→match-Pieces q ps (u ++ t) (Pieces-append (q ∷ ps) u t h) in
    rw e (ground (arith, match_pieces_step p q ps (w ++ (p ++ t)), found, rest))

-- ===== src/Edge/Drain/Endpoint/Targets.antt =====
-- pkg/edge/drain.go: the list of a drain request is read as the one of the flag is.
use outrelay_relay.Text.{comma, onto_first, split, trim_left, trim_right, trim_space}
use outrelay_relay.Start.{keep_items, split_endpoints}
use outrelay_relay.Edge.Drain.Endpoint.{collect_targets, choose_targets, ℕ}
use outrelay_relay.Common.{
  ℕ, Bool, List, ◌≡◌, Bytes, false, map, ◌∷◌, true, if◌then◌else◌, ◌&&◌, arith, Bool-cases, [],
  ◌==◌, eq_iff, inr, inl, bytes_eq, refl, nat_eq, ap, ◌∙◌, sym,
}

nil_same : (w : Bytes) → w ≡ [] → (w == []) ≡ true
nil_same w e = ground (arith, e, eq_iff w [])

module _ (is_space : ℕ → Bool) where
  -- `onto_first` after the items have been trimmed on the right.
  onto_trimmed : ℕ → List Bytes → List Bytes
  onto_trimmed c [] = trim_right is_space (c ∷ []) ∷ []
  onto_trimmed c (v ∷ vs) = (if is_space c && v == [] then [] else c ∷ v) ∷ vs

  map-onto_first :
      (c : ℕ) (ws : List Bytes)
      → map (trim_right is_space) (onto_first c ws) ≡ onto_trimmed c (map (trim_right is_space) ws)
  unfolding onto_first onto_trimmed trim_right
  map-onto_first c [] = refl
  map-onto_first c (w ∷ ws) = refl

  keep_trimmed : List Bytes → List Bytes
  keep_trimmed [] = []
  keep_trimmed (w ∷ ws) =
      let rest = keep_trimmed ws in
      let trimmed = trim_left is_space w in if trimmed == [] then rest else trimmed ∷ rest

  keep_items-map :
      (ws : List Bytes) → keep_items is_space ws ≡ keep_trimmed (map (trim_right is_space) ws)
  unfolding keep_items keep_trimmed trim_space
  keep_items-map [] = refl
  keep_items-map (w ∷ ws) = rw (keep_items-map ws) refl

  collect_is_keep : (ws : List Bytes) → collect_targets is_space ws ≡ keep_items is_space ws
  unfolding collect_targets keep_items
  collect_is_keep [] = refl
  collect_is_keep (w ∷ ws) = rw (collect_is_keep ws) refl

  keep_items-space :
      (c : ℕ) (ws : List Bytes)
      → is_space c ≡ true
      → keep_items is_space (onto_first c ws) ≡ keep_items is_space ws
  unfolding keep_items onto_first trim_space trim_left trim_right
  keep_items-space c [] space = ground (arith, space, nil_same [] refl)
  keep_items-space c (w ∷ ws) space = ground (arith, space, eq_iff (trim_right is_space w) [])

  module _ (solid : is_space comma ≡ false) where
    split-trim_left :
        (raw : Bytes)
        → keep_items is_space (split comma (trim_left is_space raw))
          ≡ keep_items is_space (split comma raw)
    unfolding split trim_left
    split-trim_left [] = refl
    split-trim_left (c ∷ cs) = elim (Bool-cases (is_space c)) [
      | inr plain ↦ rw plain refl
      | inl space ↦ ground (
        arith,
        space,
        split-trim_left cs,
        keep_items-space c (split comma cs) space,
        eq_iff c comma,
        solid,
      )
    ]

    split-trim_right :
        (raw : Bytes)
        → map (trim_right is_space) (split comma (trim_right is_space raw))
          ≡ map (trim_right is_space) (split comma raw)
    unfolding split trim_right onto_trimmed
    split-trim_right [] = refl
    split-trim_right (c ∷ cs) = elim (Bool-cases (c == comma)) [
      | inl sep ↦ ground (arith, sep, solid, eq_iff c comma, split-trim_right cs)
      | inr plain ↦ elim (Bool-cases (is_space c && trim_right is_space cs == [])) [
        | inl vanishes ↦ ground (
          arith,
          plain,
          vanishes,
          map-onto_first c (split comma cs),
          split-trim_right cs,
          nil_same [] refl,
          eq_iff (trim_right is_space cs) [],
        )
        | inr stays ↦ ground (
          arith,
          plain,
          stays,
          map-onto_first c (split comma cs),
          map-onto_first c (split comma (trim_right is_space cs)),
          split-trim_right cs,
        )
      ]
    ]

    -- Where a comma is no space, the targets of a request are the default ones if its list is blank, and
    -- otherwise what the flag's list would be read as.
    pub targets_read_alike :
        (raw : Bytes) (defaults : List Bytes)
        → choose_targets is_space raw defaults
          ≡ (if trim_space is_space raw == [] then defaults else split_endpoints is_space raw)
    unfolding choose_targets split_endpoints trim_space
    targets_read_alike raw defaults =
        ap (λ (ws : List Bytes). if trim_space is_space raw == [] then defaults else ws)
          (collect_is_keep (split comma (trim_left is_space right))
            ∙ (split-trim_left right
                ∙ (keep_items-map (split comma right)
                    ∙ (ap keep_trimmed (split-trim_right raw)
                        ∙ sym (keep_items-map (split comma raw))))))
      where
        right : Bytes
        right = trim_right is_space raw

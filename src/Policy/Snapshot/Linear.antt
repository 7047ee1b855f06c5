-- ===== src/Policy/Snapshot/Linear.antt =====
-- The index by target changes no decision: a snapshot decides as a scan of the exact-target rules
-- and then of the rules with a star.
use outrelay_relay.Common.{
  ℕ, Bool, true, false, not, ◌&&◌, if◌then◌else◌, ◌==◌, eq_iff, nat_eq, bytes_eq, Bytes, get,
  get-put, get-empty, Option, some, List, [], ◌∷◌, ◌++◌, ◌≡◌, inl, inr, arith, Bool-cases, sym,
  refl,
}
use mathlib.Core.List.{append-nil, append_assoc}
use outrelay_relay.Policy.Glob.{match_glob, contains_star}
use outrelay_relay.Policy.Glob.Correct.{match_glob-Glob, Glob-plain}
use outrelay_relay.Policy.Rules.{Rule}
use outrelay_relay.Policy.Snapshot.{
  Snapshot, rule_applies, match_first, or_empty, add_rule, build_from, build_snapshot, or_denied,
  or_wildcard, decide,
}

-- The rules that pass a test, in their order.
unfoldable pub select : (Rule → Bool) → List Rule → List Rule
select test [] = []
select test (r ∷ rs) = let rest = select test rs in if test r then r ∷ rest else rest

abbrev pub is_exact : Rule → Bool
is_exact r = not (contains_star r.target_pattern)

abbrev pub is_wild : Rule → Bool
is_wild r = contains_star r.target_pattern

abbrev pub is_for : Bytes → Rule → Bool
is_for target r = is_exact r && r.target_pattern == target

-- The order in which a decision looks at the rules: the exact ones first.
unfoldable pub by_precedence : List Rule → List Rule
unfolding select
by_precedence rules = select is_exact rules ++ select is_wild rules

wildcard-build_from :
    (rs : List Rule) (s : Snapshot) → (build_from s rs).wildcard ≡ s.wildcard ++ select is_wild rs
unfolding build_from add_rule select
wildcard-build_from [] s = sym (append-nil s.wildcard)
wildcard-build_from (r ∷ rs) s = ground (
  arith,
  wildcard-build_from rs (add_rule s r),
  append_assoc s.wildcard (r ∷ []) (select is_wild rs),
)

bucket-build_from :
    (rs : List Rule) (s : Snapshot) (t : Bytes)
    → or_empty (get t (build_from s rs).by_target)
      ≡ or_empty (get t s.by_target) ++ select (is_for t) rs
unfolding build_from add_rule select
bucket-build_from [] s t = sym (append-nil (or_empty (get t s.by_target)))
bucket-build_from (r ∷ rs) s t =
    let k = r.target_pattern in
    let old = or_empty (get k s.by_target) in
    ground (
      arith,
      bucket-build_from rs (add_rule s r) t,
      get-put k t (old ++ r ∷ []) s.by_target,
      eq_iff k t,
      append_assoc old (r ∷ []) (select (is_for t) rs),
    )

bucket-build_snapshot :
    (rs : List Rule) (t : Bytes)
    → or_empty (get t (build_snapshot rs).by_target) ≡ select (is_for t) rs
unfolding build_snapshot
bucket-build_snapshot rs t = ground (
  arith,
  bucket-build_from rs (record { by_target = []; wildcard = [] }) t,
  get-empty {V = List Rule} t,
)

wildcard-build_snapshot : (rs : List Rule) → (build_snapshot rs).wildcard ≡ select is_wild rs
unfolding build_snapshot
wildcard-build_snapshot rs = wildcard-build_from rs (record { by_target = []; wildcard = [] })

module _ (caller target method : Bytes) (now_ms : ℕ) where
  abbrev pub first_of_list : List Rule → Option Rule
  first_of_list rs = match_first rs caller target method now_ms

  match_first-append :
      (xs ys : List Rule)
      → first_of_list (xs ++ ys) ≡ or_wildcard (first_of_list xs) (first_of_list ys)
  unfolding match_first
  match_first-append [] ys = refl
  match_first-append (x ∷ xs) ys = ground (arith, match_first-append xs ys)

  -- An exact rule for another target does not apply.
  not_applies :
      (r : Rule)
      → is_exact r ≡ true
      → (r.target_pattern == target) ≡ false
      → rule_applies r caller target method now_ms ≡ false
  unfolding rule_applies
  not_applies r exact other = elim (Bool-cases (match_glob r.target_pattern target)) [
    | inl m ↦ absurd (
        ground (
          arith,
          (Glob-plain r.target_pattern target (ground arith)).0
              ((match_glob-Glob r.target_pattern target).0 m),
          eq_iff r.target_pattern target,
        ))
    | inr n ↦ ground arith
  ]

  match_first-bucket :
      (rs : List Rule)
      → first_of_list (select (is_for target) rs) ≡ first_of_list (select is_exact rs)
  unfolding match_first select
  match_first-bucket [] = refl
  match_first-bucket (r ∷ rs) = ground (arith, match_first-bucket rs, not_applies r)

  -- The snapshot that is indexed by target decides as the plain scan of the rules, those with an
  -- exact target before those with a star, each in their order.
  pub decide-build_snapshot :
      (rules : List Rule)
      → decide (some (build_snapshot rules)) caller target method now_ms
        ≡ or_denied (first_of_list (by_precedence rules))
  unfolding decide by_precedence
  decide-build_snapshot rules =
      rw (bucket-build_snapshot rules target, wildcard-build_snapshot rules)
        (rw (
          match_first-bucket rules,
          match_first-append (select is_exact rules) (select is_wild rules),
        ))

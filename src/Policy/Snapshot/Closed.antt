-- ===== src/Policy/Snapshot/Closed.antt =====
-- The closed world of the policy: what an answer of `Decide` says of the rules.
use outrelay_relay.Common.{
  ℕ, Bool, true, false, ◌==◌, eq_iff, nat_eq, bytes_eq, Bytes, none, some, List, [], ◌∷◌, ◌≡◌, ◌<◌,
  ◌⊎◌, inl, inr, arith, Bool-cases, Option-cases, ap, ◌∙◌, codes, ◌||◌, Elem, Elem-cons,
  Elem-append_cases, Elem-append_right, Elem-append_left,
}
use outrelay_relay.Policy.Glob.{match_glob}
use outrelay_relay.Policy.Glob.Correct.{Glob, match_glob-Glob}
use outrelay_relay.Policy.Rules.{Rule}
use outrelay_relay.Policy.Snapshot.{
  rule_applies, match_first, build_snapshot, denied, result_of, or_denied, decide,
}
use outrelay_relay.Policy.Snapshot.Linear.{
  select, is_exact, is_wild, by_precedence, first_of_list, decide-build_snapshot,
}

Elem-select : (test : Rule → Bool) (r : Rule) (rs : List Rule) → Elem r (select test rs) → Elem r rs
unfolding select
Elem-select test r [] h = h
Elem-select test r (x ∷ rs) h = elim (Bool-cases (test x)) [
  | inl e ↦ Elem-cons r x (select test rs) rs (Elem-select test r rs) (rw e at h)
  | inr e ↦ inr (Elem-select test r rs (rw e at h))
]

select-Elem :
    (test : Rule → Bool) (r : Rule) (rs : List Rule)
    → test r ≡ true
    → Elem r rs
    → Elem r (select test rs)
unfolding select
select-Elem test r [] h m = m
select-Elem test r (x ∷ rs) h m = elim (Bool-cases (test x)) [
  | inl e ↦ rw e (Elem-cons r x rs (select test rs) (select-Elem test r rs h) m)
  | inr e ↦ rw e (elim m [ inl q ↦ cc | inr n ↦ select-Elem test r rs h n ])
]

Elem-by_precedence : (r : Rule) (rs : List Rule) → Elem r (by_precedence rs) → Elem r rs
unfolding by_precedence
Elem-by_precedence r rs h = elim (Elem-append_cases r (select is_exact rs) (select is_wild rs) h) [
  | inl a ↦ Elem-select is_exact r rs a
  | inr b ↦ Elem-select is_wild r rs b
]

by_precedence-Elem : (r : Rule) (rs : List Rule) → Elem r rs → Elem r (by_precedence rs)
unfolding by_precedence
by_precedence-Elem r rs h = elim (Bool-cases (is_wild r)) [
  | inl w ↦
      Elem-append_right r (select is_exact rs) (select is_wild rs) (select-Elem is_wild r rs w h)
  | inr x ↦
      Elem-append_left r (select is_exact rs) (select is_wild rs)
        (select-Elem is_exact r rs (ground arith) h)
]

module _ (caller target method : Bytes) (now_ms : ℕ) where
  -- The rule is in force and matches the request.
  pub record Applies (r : Rule) : Type 0 where
    pub in_force : (r.expires_unix_ms ≡ 0) ⊎ (now_ms < r.expires_unix_ms)
    pub caller_matches : Glob r.caller_pattern caller
    pub target_matches : Glob r.target_pattern target
    pub method_matches : (r.method_pattern ≡ []) ⊎ Glob r.method_pattern method

  rule_applies→Applies : (r : Rule) → rule_applies r caller target method now_ms ≡ true → Applies r
  unfolding rule_applies
  rule_applies→Applies r h = record {
    in_force = ground arith;
    caller_matches = (match_glob-Glob r.caller_pattern caller).0 (ground arith);
    target_matches = (match_glob-Glob r.target_pattern target).0 (ground arith);
    method_matches = elim (Bool-cases (r.method_pattern == [])) [
      | inl e ↦ inl ((eq_iff r.method_pattern []).0 e)
      | inr n ↦ inr ((match_glob-Glob r.method_pattern method).0 (ground arith))
    ];
  }

  method_test :
      (r : Rule)
      → (r.method_pattern ≡ []) ⊎ Glob r.method_pattern method
      → (r.method_pattern == []) || match_glob r.method_pattern method ≡ true
  method_test r (inl e) = ground (arith, eq_iff r.method_pattern [])
  method_test r (inr g) = ground (arith, (match_glob-Glob r.method_pattern method).1 g)

  Applies→rule-Applies : (r : Rule) → Applies r → rule_applies r caller target method now_ms ≡ true
  unfolding rule_applies
  Applies→rule-Applies r a = ground (
    arith,
    a.in_force,
    (match_glob-Glob r.caller_pattern caller).1 a.caller_matches,
    (match_glob-Glob r.target_pattern target).1 a.target_matches,
    method_test r a.method_matches,
  )

  match_first_sound :
      (rs : List Rule) (r : Rule)
      → first_of_list caller target method now_ms rs ≡ some r
      → Elem r rs × (rule_applies r caller target method now_ms ≡ true)
  unfolding match_first
  match_first_sound [] r e = cc
  match_first_sound (x ∷ rs) r e = elim (Bool-cases (rule_applies x caller target method now_ms)) [
    | inl h ↦ (inl (ground arith), ground arith)
    | inr h ↦ let (m, a) = match_first_sound rs r (ground arith) in (inr m, a)
  ]

  match_first_complete :
      (rs : List Rule) (r : Rule)
      → first_of_list caller target method now_ms rs ≡ none
      → Elem r rs
      → rule_applies r caller target method now_ms ≡ false
  unfolding match_first
  match_first_complete [] r e m = absurd m
  match_first_complete (x ∷ rs) r e (inl q) = ground arith
  match_first_complete (x ∷ rs) r e (inr m) = ground (arith, match_first_complete rs r)

  -- Exactly one of two: a rule of the set that is in force and matches gave the answer, or none of
  -- the rules is in force and matches, and the answer is a refusal.
  pub decide_closed :
      (rules : List Rule)
      → ((r : Rule) × Elem r rules
          × Applies r
          × (decide (some (build_snapshot rules)) caller target method now_ms ≡ result_of r))
        ⊎ (((r : Rule) → Elem r rules → ¬ Applies r)
            × (decide (some (build_snapshot rules)) caller target method now_ms
                ≡ denied (codes "no matching rule")))
  decide_closed rules =
      elim (Option-cases (first_of_list caller target method now_ms (by_precedence rules))) [
        | inl e ↦ inr (
          λ r m a. ground (
            arith,
            match_first_complete (by_precedence rules) r e (by_precedence-Elem r rules m),
            Applies→rule-Applies r a,
          ),
          decide-build_snapshot caller target method now_ms rules ∙ ap or_denied e,
        )
        | inr (r, e) ↦
            let (m, a) = match_first_sound (by_precedence rules) r e in
            inl (
              r,
              Elem-by_precedence r rules m,
              rule_applies→Applies r a,
              decide-build_snapshot caller target method now_ms rules ∙ ap or_denied e,
            )
      ]

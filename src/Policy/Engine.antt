-- ===== src/Policy/Engine.antt =====
-- pkg/policy/matcher.go: `Engine`. `range` stands for the order in which Go visits a map, which it
-- chooses anew each time; the clock reading is an argument.
use outrelay_relay.Common.{
  ℕ, ◌≡◌, ◌≢◌, false, nat_eq, bytes_eq, eq_iff, Bytes, Dict, get, put, del, retain, get-put,
  get-del, get-retain, Option, none, some, List, [], ◌∷◌, Elem, IsRange, arith, refl, inl, inr,
  codes, ◌⊎◌, ap, sym, ◌∙◌,
}
use outrelay_relay.Policy.Rules.{Rule, Result}
use outrelay_relay.Policy.Snapshot.{Snapshot, build_snapshot, decide, result_of, denied}
use outrelay_relay.Policy.Snapshot.Closed.{Applies, decide_closed}

pub record Engine : Type 0 where
  pub rules : Dict Bytes Rule
  pub cur : Snapshot

unfoldable pub new_engine : Engine
new_engine = record { rules = []; cur = build_snapshot [] }

unfoldable pub engine_decide : Engine → Bytes → Bytes → Bytes → ℕ → Result
engine_decide e caller target method now_ms = decide (some e.cur) caller target method now_ms

abbrev prepend : Option Rule → List Rule → List Rule
prepend none rs = rs
prepend (some r) rs = r ∷ rs

-- `for _, r := range e.rules { rules = append(rules, r) }`
unfoldable pub collect : List Bytes → Dict Bytes Rule → List Rule
collect [] m = []
collect (k ∷ ks) m = prepend (get k m) (collect ks m)

unfoldable pub insert_all : List Rule → Dict Bytes Rule → Dict Bytes Rule
insert_all [] m = m
insert_all (r ∷ rs) m = insert_all rs (put r.id r m)

module _ (range : Dict Bytes Rule → List Bytes) where
  unfoldable pub apply : (Dict Bytes Rule → Dict Bytes Rule) → Engine → Engine
  unfolding collect
  apply mutate e =
      let rules = mutate e.rules in
      record { rules = rules; cur = build_snapshot (collect (range rules) rules) }

  unfoldable pub set_rules : List Rule → Engine → Engine
  unfolding apply insert_all
  set_rules rs = apply (λ m. insert_all rs (retain (λ k r. false) m))

  unfoldable pub add : Rule → Engine → Engine
  unfolding apply
  add r = apply (put r.id r)

  unfoldable pub remove : Bytes → Engine → Engine
  unfolding apply
  remove id = apply (del id)

  -- A rule stands under its own id, and the snapshot is that of the working set.
  pub record IsCurrent (e : Engine) : Type 0 where
    pub keyed : (k : Bytes) (r : Rule) → get k e.rules ≡ some r → r.id ≡ k
    pub current : e.cur ≡ build_snapshot (collect (range e.rules) e.rules)

  pub add-IsCurrent : (r : Rule) (e : Engine) → IsCurrent e → IsCurrent (add r e)
  unfolding add
  add-IsCurrent r e v = record {
    keyed = λ k s h. ground (arith, get-put r.id k r e.rules, eq_iff r.id k, v.keyed k s);
    current = refl;
  }

  pub remove-IsCurrent : (id : Bytes) (e : Engine) → IsCurrent e → IsCurrent (remove id e)
  unfolding remove
  remove-IsCurrent id e v = record {
    keyed = λ k s h. ground (arith, get-del id k e.rules, v.keyed k s);
    current = refl;
  }

  abbrev Keyed : Dict Bytes Rule → Type 0
  Keyed m = (k : Bytes) (r : Rule) → get k m ≡ some r → r.id ≡ k

  insert_all-Keyed : (rs : List Rule) (m : Dict Bytes Rule) → Keyed m → Keyed (insert_all rs m)
  unfolding insert_all
  insert_all-Keyed [] m v = v
  insert_all-Keyed (r ∷ rs) m v =
      insert_all-Keyed rs (put r.id r m)
        λ k s h. ground (arith, get-put r.id k r m, eq_iff r.id k, v k s)

  pub set_rules-IsCurrent : (rs : List Rule) (e : Engine) → IsCurrent (set_rules rs e)
  unfolding set_rules
  set_rules-IsCurrent rs e = record {
    keyed =
        insert_all-Keyed rs (retain (λ k r. false) e.rules)
          λ k s h. ground (arith, get-retain (λ k r. false) k e.rules);
    current = refl;
  }

  module _ (any_order : IsRange range) where
    prepend-Elem :
        (o : Option Rule) (rs : List Rule) (r : Rule)
        → Elem r (prepend o rs)
        → (o ≡ some r) ⊎ Elem r rs
    prepend-Elem none rs r h = inr h
    prepend-Elem (some s) rs r (inl e) = inl (ap some (sym e))
    prepend-Elem (some s) rs r (inr m) = inr m

    Elem-prepend :
        (o : Option Rule) (rs : List Rule) (r : Rule)
        → (o ≡ some r) ⊎ Elem r rs
        → Elem r (prepend o rs)
    Elem-prepend none rs r (inl e) = cc
    Elem-prepend none rs r (inr m) = m
    Elem-prepend (some s) rs r (inl e) = inl (cc)
    Elem-prepend (some s) rs r (inr m) = inr m

    collect_sound :
        (ks : List Bytes) (m : Dict Bytes Rule) (r : Rule)
        → Elem r (collect ks m)
        → (k : Bytes) × (get k m ≡ some r)
    unfolding collect
    collect_sound [] m r h = absurd h
    collect_sound (k ∷ ks) m r h = elim (prepend-Elem (get k m) (collect ks m) r h) [
      | inl e ↦ (k, e)
      | inr n ↦ collect_sound ks m r n
    ]

    collect_complete :
        (ks : List Bytes) (m : Dict Bytes Rule) (k : Bytes) (r : Rule)
        → get k m ≡ some r
        → Elem k ks
        → Elem r (collect ks m)
    unfolding collect
    collect_complete [] m k r e h = absurd h
    collect_complete (j ∷ ks) m k r e (inl q) =
        Elem-prepend (get j m) (collect ks m) r (inl (ap (λ x. get x m) (sym q) ∙ e))
    collect_complete (j ∷ ks) m k r e (inr n) =
        Elem-prepend (get j m) (collect ks m) r (inr (collect_complete ks m k r e n))

    module _ (e : Engine) (v : IsCurrent e) (caller target method : Bytes) (now_ms : ℕ) where
      -- Whatever order Go visits the working set in, the engine of a current snapshot answers by a
      -- rule of the set that is in force and matches the request, or refuses because the set has
      -- none.
      pub engine_decide_closed :
          ((r : Rule) × (get r.id e.rules ≡ some r)
            × Applies caller target method now_ms r
            × (engine_decide e caller target method now_ms ≡ result_of r))
          ⊎ (((k : Bytes) (r : Rule)
                → get k e.rules ≡ some r
                → ¬ Applies caller target method now_ms r)
              × (engine_decide e caller target method now_ms ≡ denied (codes "no matching rule")))
      unfolding engine_decide
      engine_decide_closed =
          elim (decide_closed caller target method now_ms (collect (range e.rules) e.rules)) [
            | inl (r, m, a, d) ↦
                let (k, found) = collect_sound (range e.rules) e.rules r m in
                inl (
                  r,
                  ap (λ x. get x e.rules) (v.keyed k r found) ∙ found,
                  a,
                  ap (λ s. decide (some s) caller target method now_ms) v.current ∙ d,
                )
            | inr (no_rule, d) ↦ inr (
              λ k r found. no_rule r (
                  collect_complete (range e.rules) e.rules k r found
                    (any_order.visits e.rules k r found)),
              ap (λ s. decide (some s) caller target method now_ms) v.current ∙ d,
            )
          ]

    -- After the removal of an id from an engine of a current snapshot, every answer is that of a
    -- rule with another id, or a refusal.
    pub remove_decides_no_more :
        (id : Bytes) (e : Engine) (caller target method : Bytes) (now_ms : ℕ)
        → IsCurrent e
        → ((r : Rule) × (r.id ≢ id)
            × (get r.id e.rules ≡ some r)
            × (engine_decide (remove id e) caller target method now_ms ≡ result_of r))
          ⊎ (engine_decide (remove id e) caller target method now_ms
              ≡ denied (codes "no matching rule"))
    remove_decides_no_more id e caller target method now_ms v =
        elim (engine_decide_closed (remove id e) (remove-IsCurrent id e v) caller target method
          now_ms) [
            | inl (r, found, a, d) ↦ inl (
              r,
              λ q. unfold remove in ground (arith, get-del id r.id e.rules, eq_iff id r.id),
              unfold remove in ground (arith, get-del id r.id e.rules),
              d,
            )
            | inr (no_rule, d) ↦ inr d
          ]

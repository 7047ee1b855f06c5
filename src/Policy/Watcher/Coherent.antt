-- ===== src/Policy/Watcher/Coherent.antt =====
-- pkg/policy/client.go: the watcher keeps the cache in step with the engine.
use outrelay_relay.Common.{
  none, some, ◌≡◌, refl, inl, inr, arith, ◌⊎◌, [], ◌∷◌, Dict, Bytes, List, Option, Bool-cases,
  if◌then◌else◌, ◌==◌, nat_eq, All, true, false, ◌++◌, sym, retain, ap, ◌≢◌, ◌∙◌, del, bytes_eq,
  get, put, Option-cases, subst, get-put, get-retain, eq_iff,
}
use outrelay_relay.Policy.Wire.{Constants, PolicyEvent, from_pb, PolicyRule}
use outrelay_relay.Policy.Rules.{Rule}
use mathlib.Core.List.{append-nil, append_assoc}
use outrelay_relay.Policy.Engine.{
  Engine, apply, set_rules, insert_all, collect, set_rules-IsCurrent,
}
use outrelay_relay.Policy.Snapshot.{build_snapshot}
use outrelay_relay.Policy.Cache.{Cache}
use outrelay_relay.Policy.Watcher.{
  Watch, on_event, on_added, on_removed, on_snapshot_end, run_once, open_watch,
}
use outrelay_relay.Policy.Cache.{cache_flush}

module _ (pb : Constants) (range : Dict Bytes Rule → List Bytes) where
  on_added_coherent :
      (r : Option PolicyRule) (w : Watch)
      → ((on_added pb range r w).engine ≡ w.engine × (on_added pb range r w).cache ≡ w.cache)
        ⊎ ((on_added pb range r w).cache ≡ [])
  unfolding on_added cache_flush
  on_added_coherent none w = inl (refl, refl)
  on_added_coherent (some r) w = elim (Bool-cases w.in_snapshot) [
    | inl early ↦ inl (ground arith, ground arith)
    | inr live ↦ inr (ground arith)
  ]

  -- An event leaves the engine and the cache as they are, or empties the cache.
  pub on_event_coherent :
      (ev : PolicyEvent) (w : Watch)
      → ((on_event pb range ev w).engine ≡ w.engine × (on_event pb range ev w).cache ≡ w.cache)
        ⊎ ((on_event pb range ev w).cache ≡ [])
  unfolding on_event on_removed on_snapshot_end cache_flush
  on_event_coherent ev w = elim (Bool-cases (ev.kind == pb.kind_added)) [
    | inl a ↦ ground (arith, on_added_coherent ev.rule w)
    | inr o ↦ ground arith
  ]

  abbrev from_event : Option PolicyRule → List Rule → List Rule
  from_event none rs = rs
  from_event (some r) rs = from_pb pb r ∷ rs

  -- The rules of the events that add one, in the order of the stream.
  unfoldable pub added_rules : List PolicyEvent → List Rule
  added_rules [] = []
  added_rules (ev ∷ evs) =
      let rest = added_rules evs in
      if ev.kind == pb.kind_added then from_event ev.rule rest else rest

  abbrev Early : List PolicyEvent → Type 0
  Early = All (λ ev. (ev.kind == pb.kind_snapshot_end) ≡ false)

  -- What the event adds to the rules that wait.
  abbrev queued : PolicyEvent → List Rule
  queued ev = if ev.kind == pb.kind_added then from_event ev.rule [] else []

  added_rules-cons :
      (ev : PolicyEvent) (evs : List PolicyEvent)
      → added_rules (ev ∷ evs) ≡ queued ev ++ added_rules evs
  unfolding added_rules
  added_rules-cons ev evs = ground arith

  on_event-pending :
      (ev : PolicyEvent) (w : Watch)
      → w.in_snapshot ≡ true
      → (ev.kind == pb.kind_snapshot_end) ≡ false
      → ((on_event pb range ev w).pending ≡ w.pending ++ queued ev)
        × ((on_event pb range ev w).in_snapshot ≡ true)
  unfolding on_event on_added on_removed
  on_event-pending ev w early kind = ground (arith, append-nil w.pending)

  run_once-pending :
      (evs : List PolicyEvent) (w : Watch)
      → w.in_snapshot ≡ true
      → Early evs
      → (run_once pb range evs w).pending ≡ w.pending ++ added_rules evs
  unfolding run_once added_rules
  run_once-pending [] w early before = sym (append-nil w.pending)
  run_once-pending (ev ∷ evs) w early (kind, before) =
      let (grown, still) = on_event-pending ev w early kind in
      run_once-pending evs (on_event pb range ev w) still before
      ∙ ap (λ p. p ++ added_rules evs) grown
      ∙ append_assoc w.pending (queued ev) (added_rules evs)
      ∙ ap (◌++◌ w.pending) (sym (added_rules-cons ev evs))

  run_once-append :
      (evs more : List PolicyEvent) (w : Watch)
      → run_once pb range (evs ++ more) w ≡ run_once pb range more (run_once pb range evs w)
  unfolding run_once
  run_once-append [] more w = refl
  run_once-append (ev ∷ evs) more w = run_once-append evs more (on_event pb range ev w)

  retain-none : (m : Dict Bytes Rule) → retain (λ k r. false) m ≡ []
  unfolding retain del
  retain-none [] = refl
  retain-none ((k, r) ∷ m) = ap (del k) (retain-none m)

  pub set_rules-forgets :
      (rs : List Rule) (e f : Engine) → set_rules range rs e ≡ set_rules range rs f
  unfolding set_rules apply
  set_rules-forgets rs e f =
      ap
        (λ m. record {
          rules = insert_all rs m;
          cur = build_snapshot (collect (range (insert_all rs m)) (insert_all rs m));
        })
        (retain-none e.rules ∙ sym (retain-none f.rules))

  on_event-end :
      (ev : PolicyEvent) (w : Watch)
      → ev.kind ≡ pb.kind_snapshot_end
      → pb.kind_added ≢ pb.kind_snapshot_end
      → pb.kind_removed ≢ pb.kind_snapshot_end
      → on_event pb range ev w ≡ on_snapshot_end pb range w
  unfolding on_event
  on_event-end ev w end distinct_added distinct_removed = ground arith

  -- The first snapshot of a stream installs the rules of its ADDED events, whatever the engine held.
  pub snapshot-set_rules :
      (evs : List PolicyEvent) (last : PolicyEvent) (e : Engine) (c : Cache)
      → All (λ ev. (ev.kind == pb.kind_snapshot_end) ≡ false) evs
      → last.kind ≡ pb.kind_snapshot_end
      → pb.kind_added ≢ pb.kind_snapshot_end
      → pb.kind_removed ≢ pb.kind_snapshot_end
      → let w = run_once pb range (evs ++ last ∷ []) (open_watch e c) in
        (w.engine ≡ set_rules range (added_rules evs) e) × (w.cache ≡ [])
  unfolding run_once open_watch on_snapshot_end cache_flush
  snapshot-set_rules evs last e c before end distinct_added distinct_removed =
      let w = run_once pb range evs (open_watch e c) in
      let at_end =
        run_once-append evs (last ∷ []) (open_watch e c)
        ∙ on_event-end last w end distinct_added distinct_removed in
      (
        ap (λ x. x.engine) at_end
            ∙ ap (λ rs. set_rules range rs w.engine)
                (run_once-pending evs (open_watch e c) refl before)
            ∙ set_rules-forgets (added_rules evs) w.engine e,
        ap (λ x. x.cache) at_end,
      )

  -- The last rule of the list with the id.
  abbrev pub last_under : Bytes → List Rule → Option Rule
  last_under k [] = none
  last_under k (r ∷ rs) = elim (last_under k rs) [
    | some s ↦ some s
    | none ↦ if r.id == k then some r else none
  ]

  abbrev or_held : Option Rule → Option Rule → Option Rule
  or_held (some r) held = some r
  or_held none held = held

  get-insert_all :
      (rs : List Rule) (m : Dict Bytes Rule) (k : Bytes)
      → get k (insert_all rs m) ≡ or_held (last_under k rs) (get k m)
  unfolding insert_all
  get-insert_all [] m k = refl
  get-insert_all (r ∷ rs) m k =
      get-insert_all rs (put r.id r m) k ∙ elim (Option-cases (last_under k rs)) [
        | inl e ↦ ground (arith, e, get-put r.id k r m, eq_iff r.id k)
        | inr (x, e) ↦ ground (arith, e)
      ]

  get-set_rules :
      (rs : List Rule) (e : Engine) (k : Bytes)
      → get k (set_rules range rs e).rules ≡ last_under k rs
  unfolding set_rules apply
  get-set_rules rs e k =
      get-insert_all rs (retain (λ k r. false) e.rules) k ∙ elim (Option-cases (last_under k rs)) [
        | inl none_left ↦ ground (arith, none_left, get-retain (λ k r. false) k e.rules)
        | inr (x, found) ↦ ground (arith, found)
      ]

  -- When the first snapshot of a stream ends, the engine holds under each id the last rule with
  -- this id that an ADDED event carried, and none where there was none, whatever it held before;
  -- its snapshot is built from these rules, and the cache is empty. A REMOVED event among them
  -- takes none of them away. The numbers of ADDED and REMOVED differ from that of the end.
  pub snapshot_replaces :
      (evs : List PolicyEvent) (last : PolicyEvent) (e : Engine) (c : Cache)
      → All (λ ev. (ev.kind == pb.kind_snapshot_end) ≡ false) evs
      → last.kind ≡ pb.kind_snapshot_end
      → pb.kind_added ≢ pb.kind_snapshot_end
      → pb.kind_removed ≢ pb.kind_snapshot_end
      → let w = run_once pb range (evs ++ last ∷ []) (open_watch e c) in
        ((k : Bytes) → get k w.engine.rules ≡ last_under k (added_rules evs))
        × (w.engine.cur ≡ build_snapshot (collect (range w.engine.rules) w.engine.rules))
        × (w.cache ≡ [])
  snapshot_replaces evs last e c before end distinct_added distinct_removed =
      let (engine, cache) =
        snapshot-set_rules evs last e c before end distinct_added distinct_removed in
      (
        λ k. ap (λ x. get k x.rules) engine ∙ get-set_rules (added_rules evs) e k,
        subst (λ (x : Engine). x.cur ≡ build_snapshot (collect (range x.rules) x.rules))
            (sym engine) (set_rules-IsCurrent range (added_rules evs) e).current,
        cache,
      )

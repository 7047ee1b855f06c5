-- ===== src/Edge/Control/Promotion.antt =====
-- pkg/edge/edge.go: what a required promotion comes to.
use outrelay_relay.Edge.Pairs.{Pairs}
use outrelay_relay.Edge.Migrated.{
  MigratedStream, MigratedLru, migration_ttl, lookup_migrated, lookup-note,
}
use outrelay_relay.Edge.Control.{
  Wakeup, stream_ended, ticked, deadline_passed, left, closed_stream, enforce_required_promotion,
  handle_migrate_to_p2p, known_pair, ℕ,
}
use outrelay_relay.Common.{
  ℕ, ◌≡◌, List, Bytes, none, All, ◌↔◌, ◌≤◌, ◌++◌, ◌<◌, ◌+◌, ◌∷◌, arith, ap, [], ◌∙◌, Option-cases,
  refl, inl, inr, some, get, eq_refl, nat_eq,
}

module _ (id : ℕ) where
  -- A tick that does not find the stream.
  abbrev pub Missed : Wakeup → Type 0
  Missed w =
      (now : ℕ) × (m : MigratedLru) × (w ≡ ticked now m) × ((lookup_migrated id now m).0 ≡ none)

  abbrev IsTick : Wakeup → Type 0
  IsTick w = (now : ℕ) × (m : MigratedLru) × (w ≡ ticked now m)

  closes :
      (before rest : List Wakeup)
      → All Missed before
      → enforce_required_promotion id (before ++ deadline_passed ∷ rest) ≡ closed_stream
  unfolding enforce_required_promotion
  closes [] rest missed = refl
  closes (w ∷ before) rest ((now, m, e, none_found), missed) =
      rw e (ground (arith, none_found, closes before rest missed))

  closed_only :
      (ws : List Wakeup)
      → enforce_required_promotion id ws ≡ closed_stream
      → (before : List Wakeup) × (rest : List Wakeup) × All Missed before
        × (ws ≡ before ++ deadline_passed ∷ rest)
  unfolding enforce_required_promotion
  closed_only [] h = absurd (ground (arith, h))
  closed_only (stream_ended ∷ ws) h = absurd (ground (arith, h))
  closed_only (deadline_passed ∷ ws) h = ([], ws, tt, refl)
  closed_only (ticked now m ∷ ws) h = elim (Option-cases (lookup_migrated id now m).0) [
    | inl missing ↦
        let (before, rest, missed, e) = closed_only ws (ground (arith, h, missing)) in
        (
          ticked now m ∷ before,
          rest,
          ((now, m, refl, missing), missed),
          ap (λ (xs : List Wakeup). ticked now m ∷ xs) e,
        )
    | inr (s, found) ↦ absurd (ground (arith, h, found))
  ]

  -- The timer of a required promotion closes the consumer's stream exactly when the deadline comes
  -- before the end of the stream and no tick before it has found the stream among the migrated
  -- ones.
  pub closed_iff_never_promoted :
      (ws : List Wakeup)
      → (enforce_required_promotion id ws ≡ closed_stream) ↔ (
          (before : List Wakeup) × (rest : List Wakeup) × All Missed before
          × (ws ≡ before ++ deadline_passed ∷ rest))
  closed_iff_never_promoted ws = (
    closed_only ws,
    λ (before, rest, missed, e). ap (enforce_required_promotion id) e ∙ closes before rest missed,
  )

  -- What the next tick finds of a stream that an agent has said is promoted.
  migrated_is_found :
      (uri : Bytes) (stamp swept now : ℕ) (pairs : Pairs) (m : MigratedLru)
      → swept ≤ now
      → now < stamp + migration_ttl
      → (s : MigratedStream) × ((lookup_migrated id now
            (handle_migrate_to_p2p uri id stamp swept pairs m)).0
          ≡ some s)
  unfolding handle_migrate_to_p2p
  migrated_is_found uri stamp swept now pairs m in_order in_time =
      let pair = known_pair uri (get id pairs) in
      let s : MigratedStream = record {
        id = id;
        consumer_uri = pair.consumer_uri;
        provider_uri = pair.provider_uri;
        migrated_at = 0;
      } in
      (
        record s { migrated_at = stamp },
        ground (arith, (lookup-note s id stamp swept now m in_order).0, eq_refl id),
      )

  -- After any ticks, the stream of a promotion is left alone by a tick that sees the table as
  -- handleMigrateToP2P left it, within the time to live.
  pub promoted_is_kept :
      (uri : Bytes) (stamp swept now : ℕ) (pairs : Pairs) (m : MigratedLru)
      (before rest : List Wakeup)
      → swept ≤ now
      → now < stamp + migration_ttl
      → All IsTick before
      → enforce_required_promotion id
          (before ++ ticked now (handle_migrate_to_p2p uri id stamp swept pairs m) ∷ rest)
        ≡ left
  unfolding enforce_required_promotion
  promoted_is_kept uri stamp swept now pairs m [] rest in_order in_time ticks =
      let (s, found) = migrated_is_found uri stamp swept now pairs m in_order in_time in
      ground (arith, found)
  promoted_is_kept uri stamp swept now pairs m (w ∷ before) rest in_order in_time
        ((later, n, e), ticks) =
      rw e (
        ground
          (arith, promoted_is_kept uri stamp swept now pairs m before rest in_order in_time ticks))

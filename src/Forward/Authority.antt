-- ===== src/Forward/Authority.antt =====
-- Each operation of the plane acts only on what it has seen.
use outrelay_relay.Common.{
  ℕ, ◌≡◌, true, Bool, [], ◌∷◌, nat_eq, bytes_eq, Bytes, get, refl, get-del, eq_iff, inl, inr, ◌==◌,
  if_cases, Option, none, some, ltb, ◌&&◌, Option-cases, arith, get-retain, not, List, entries,
}
use outrelay_relay.Forward.State.{
  AddrPort, AllocEntry, PendingEntry, QueuedPunch, Plane, is_valid, addr_eq, ArmError, unset, IdSet,
}
use outrelay_relay.Forward.Alloc
use outrelay_relay.Forward.Alloc.{issued}
use mathlib.Core.Bool.{false≢true}
use outrelay_relay.Forward.Register
use outrelay_relay.Forward.Index.{Inv}
use outrelay_relay.Forward.Evidence.{
  Evidence, Evidence-fewer, Earned, put-Evidence, bind-Evidence, hold_pending-Evidence,
  queue_punch-Evidence, del_pending-Evidence, del_queued-Evidence,
}

module _ (A : ℕ → Bytes → Bytes → Bool) (B : ℕ → AddrPort → Bytes → Bool) (p : Plane)
    (v : Evidence A B p) where
  arm_live-Evidence :
      (id : ℕ) (uri nonce : Bytes) (now : ℕ) (entry : AllocEntry) (q : Option QueuedPunch)
      → A id uri nonce ≡ true
      → entry.uri ≡ uri
      → get id p.queued ≡ q
      → Evidence A B (Register.arm_live id uri nonce now entry q p)
  unfolding Register.arm_live
  arm_live-Evidence id uri nonce now entry none a own e =
      hold_pending-Evidence A B p v id uri nonce now a
  arm_live-Evidence id uri nonce now entry (some q) a own e =
      let drained = del_queued-Evidence A B p v id in
      if_cases (Evidence A B) (ltb now q.expires && q.nonce == nonce) _ _
        (λ fits.
          bind-Evidence A B _ drained id q.src now entry
            (nonce, ground arith, ground (arith, v.queued_ev id q e, eq_iff q.nonce nonce)))
        (λ other. hold_pending-Evidence A B _ drained id uri nonce now a)

  pub arm_pending-Evidence :
      (id : ℕ) (uri nonce : Bytes) (now : ℕ)
      → A id uri nonce ≡ true
      → Evidence A B (Register.arm_pending id uri nonce now p).0
  unfolding Register.arm_pending
  arm_pending-Evidence id uri nonce now a =
      if_cases {A = Plane × Option ArmError} (λ r. Evidence A B r.0) (uri == []) _ _ (λ _. v)
        λ _. found (get id p.by_alloc)
    where
      found : (e : Option AllocEntry) → Evidence A B (Register.arm_entry id uri nonce now e p).0
      found none = v
      found (some entry) =
          if_cases {A = Plane × Option ArmError} (λ r. Evidence A B r.0) (entry.uri == uri) _ _
            (λ own.
              arm_live-Evidence id uri nonce now entry (get id p.queued) a
                ((eq_iff entry.uri uri).0 own) refl)
            (λ _. v)

  claim-Evidence :
      (id : ℕ) (src : AddrPort) (now : ℕ) (found : Option AllocEntry)
      → ((entry : AllocEntry) → found ≡ some entry → Earned A B id (record entry { src = src }))
      → Evidence A B (Register.claim id src now found p)
  unfolding Register.claim
  claim-Evidence id src now none earned = del_pending-Evidence A B p v id
  claim-Evidence id src now (some entry) earned =
      del_pending-Evidence A B _ (bind-Evidence A B p v id src now entry (earned entry refl)) id

  register_pending-Evidence :
      (id : ℕ) (src : AddrPort) (nonce : Bytes) (now checked : ℕ) (pend : Option PendingEntry)
      → Inv p
      → B id src nonce ≡ true
      → get id p.pending ≡ pend
      → Evidence A B (Register.register_pending id src nonce now checked pend p)
  unfolding Register.register_pending
  register_pending-Evidence id src nonce now checked none w b e =
      queue_punch-Evidence A B p v id src nonce now b
  register_pending-Evidence id src nonce now checked (some pend) w b e =
      if_cases (Evidence A B) (ltb pend.expires checked) _ _ (λ _. del_pending-Evidence A B p v id)
        λ _.
          if_cases (Evidence A B) (pend.nonce == nonce) _ _
            (λ fits. claim-Evidence id src now (get id p.by_alloc) λ entry found. (
              nonce,
              ground (arith, v.pending_ev id pend e, w.armed id pend e, eq_iff pend.nonce nonce),
              b,
            ))
            (λ _. v)

  pub register-Evidence :
      (id : ℕ) (src : AddrPort) (nonce : Bytes) (now checked : ℕ)
      → Inv p
      → B id src nonce ≡ true
      → Evidence A B (Register.register id src nonce now checked p)
  unfolding Register.register
  register-Evidence id src nonce now checked w b =
      register_pending-Evidence id src nonce now checked (get id p.pending) w b refl

  pub bump_sender-Evidence :
      (src : AddrPort) (now : ℕ) → Evidence A B (Register.bump_sender src now p)
  unfolding Register.bump_sender
  bump_sender-Evidence src now = elim (Option-cases (get src p.src2id)) [
    | inl e ↦ rw (e, Register.bump_sender) v
    | inr (id, e) ↦ elim (Option-cases (get id p.by_alloc)) [
      | inl gone ↦ rw (e, gone, Register.bump_sender) v
      | inr (entry, found) ↦
          rw (e, found, Register.bump_sender)
            (put-Evidence A B p v id (record entry { last_seen = now }) p.src2id
              (v.bound_ev id entry found))
    ]
  ]

  drop_entry-Evidence : (id : ℕ) (entry : AllocEntry) → Evidence A B (Alloc.drop_entry id entry p)
  unfolding Alloc.drop_entry
  drop_entry-Evidence id entry =
      Evidence-fewer A B p _ v (λ i pend e. ground (arith, get-del id i p.pending))
        (λ i q e. ground (arith, get-del id i p.queued))
        (λ i en e. ground (arith, get-del id i p.by_alloc))

  pub forget-Evidence : (id : ℕ) → Evidence A B (Alloc.forget id p)
  unfolding Alloc.forget
  forget-Evidence id = found (get id p.by_alloc)
    where
      found : (e : Option AllocEntry) → Evidence A B (Alloc.forget_entry id e p)
      found none = del_queued-Evidence A B _ (del_pending-Evidence A B p v id) id
      found (some entry) = drop_entry-Evidence id entry

  release_entry-Evidence :
      (id n : ℕ) (found : Option AllocEntry) → Evidence A B (Alloc.release_entry id found (p, n)).0
  unfolding Alloc.release_entry
  release_entry-Evidence id n none = v
  release_entry-Evidence id n (some entry) =
      Evidence-fewer A B p _ v (λ i pend e. ground (arith, get-del id i p.pending))
        (λ i q e. ground (arith, get-del id i p.queued))
        (λ i en e. ground (arith, get-del id i p.by_alloc))

  sweep_expired-Evidence : (now : ℕ) → Evidence A B (Alloc.sweep_expired now p)
  unfolding Alloc.sweep_expired
  sweep_expired-Evidence now =
      let live = λ (i : ℕ) (pend : PendingEntry). not (ltb pend.expires now) in
      let waiting = λ (i : ℕ) (q : QueuedPunch). not (ltb q.expires now) in
      Evidence-fewer A B p _ v (λ i pend e. ground (arith, get-retain live i p.pending))
        (λ i q e. ground (arith, get-retain waiting i p.queued)) (λ i en e. e)

  issue-Evidence :
      (uri : Bytes) (now : ℕ) (id : Option ℕ) → Evidence A B (issued p (Alloc.issue uri now id p))
  unfolding Alloc.issue is_valid
  issue-Evidence uri now none = v
  issue-Evidence uri now (some id) =
      let entry : AllocEntry = record { uri = uri; src = unset; last_seen = now } in
      let w = put-Evidence A B p v id entry p.src2id (λ h. absurd (false≢true h)) in
      record { pending_ev = w.pending_ev; queued_ev = w.queued_ev; bound_ev = w.bound_ev }

  pub allocate-Evidence :
      (uri : Bytes) (now : ℕ) → Evidence A B (issued p (Alloc.allocate uri now p))
  unfolding Alloc.allocate
  allocate-Evidence uri now =
      if_cases (λ a. Evidence A B (issued p a)) (uri == []) _ _ (λ _. v)
        (λ _. issue-Evidence uri now (Alloc.next_nonzero 2 p.next_id))

module _ (A : ℕ → Bytes → Bytes → Bool) (B : ℕ → AddrPort → Bytes → Bool) where
  release_all-Evidence :
      (ids : IdSet) (p : Plane) (n : ℕ)
      → Evidence A B p
      → Evidence A B (Alloc.release_all ids (p, n)).0
  unfolding Alloc.release_all
  release_all-Evidence [] p n v = v
  release_all-Evidence ((id, _) ∷ ids) p n v =
      let (q, k) = Alloc.release_entry id (get id p.by_alloc) (p, n) in
      release_all-Evidence ids q k (release_entry-Evidence A B p v id n (get id p.by_alloc))

  pub forget_agent-Evidence :
      (p : Plane) (uri : Bytes) → Evidence A B p → Evidence A B (Alloc.forget_agent uri p).0
  unfolding Alloc.forget_agent
  forget_agent-Evidence p uri v =
      if_cases {A = Plane × ℕ} (λ r. Evidence A B r.0) (uri == []) _ _ (λ _. v)
        (λ _. found (get uri p.by_uri))
    where
      found : (e : Option IdSet) → Evidence A B (Alloc.forget_set uri e p).0
      found none = v
      found (some set) =
          let w = release_all-Evidence (entries set) p 0 v in
          record { pending_ev = w.pending_ev; queued_ev = w.queued_ev; bound_ev = w.bound_ev }

  evict_idle-Evidence :
      (now : ℕ) (es : List (ℕ × AllocEntry)) (p : Plane)
      → Evidence A B p
      → Evidence A B (Alloc.evict_idle now es p)
  unfolding Alloc.evict_idle
  evict_idle-Evidence now [] p v = v
  evict_idle-Evidence now ((id, entry) ∷ es) p v = evict_idle-Evidence now es _ (
      if_cases (Evidence A B) (Alloc.is_idle p.idle_ttl now entry) _ _
        (λ _. drop_entry-Evidence A B p v id entry) (λ _. v))

  pub gc_once-Evidence : (p : Plane) (now : ℕ) → Evidence A B p → Evidence A B (Alloc.gc_once now p)
  unfolding Alloc.gc_once
  gc_once-Evidence p now v =
      sweep_expired-Evidence A B _ (evict_idle-Evidence now (entries p.by_alloc) p v) now

-- ===== src/Forward/Invariant.antt =====
-- Every operation of the plane keeps its tables in agreement.
use outrelay_relay.Common.{
  ℕ, ◌&&◌, Option, none, some, ◌≡◌, refl, arith, ltb, ◌==◌, inl, inr, Option-cases, if_cases,
  eq_iff, nat_eq, bytes_eq, Bytes, get, [], true, length, ◌+◌,
}
use outrelay_relay.Forward.State.{
  addr_eq, AllocEntry, QueuedPunch, Plane, ArmError, AddrPort, is_valid, PendingEntry,
  punch_nonce_size,
}
use outrelay_relay.Forward.Alloc
use outrelay_relay.Forward.Register
use outrelay_relay.Forward.Index.{
  Inv, bind-Inv, del_queued-Inv, hold_pending-Inv, del_pending-Inv, drop_entry-Inv, refresh-Inv,
  queue_punch-Inv,
}

module _ (p : Plane) (v : Inv p) (id : ℕ) (uri nonce : Bytes) (now : ℕ) where
  arm_live-Inv :
      (entry : AllocEntry) (q : Option QueuedPunch)
      → get id p.by_alloc ≡ some entry
      → entry.uri ≡ uri
      → get id p.queued ≡ q
      → Inv (Register.arm_live id uri nonce now entry q p)
  unfolding Register.arm_live
  arm_live-Inv entry none h own e = hold_pending-Inv p v id uri nonce now (ground arith)
  arm_live-Inv entry (some q) h own e =
      let drained = del_queued-Inv p v id in
      if_cases Inv (ltb now q.expires && q.nonce == nonce) _ _
        (λ fits. bind-Inv _ drained id now entry h q.src (v.queue_known id q e))
        (λ other. hold_pending-Inv _ drained id uri nonce now (ground arith))

  arm_entry-Inv :
      (found : Option AllocEntry)
      → get id p.by_alloc ≡ found
      → Inv (Register.arm_entry id uri nonce now found p).0
  unfolding Register.arm_entry
  arm_entry-Inv none e = v
  arm_entry-Inv (some entry) e =
      if_cases {A = Plane × Option ArmError} (λ r. Inv r.0) (entry.uri == uri) _ _
        (λ own. arm_live-Inv entry (get id p.queued) e ((eq_iff entry.uri uri).0 own) refl) (λ _. v)

  pub arm_pending-Inv : Inv (Register.arm_pending id uri nonce now p).0
  unfolding Register.arm_pending
  arm_pending-Inv =
      if_cases {A = Plane × Option ArmError} (λ r. Inv r.0) (uri == []) _ _ (λ _. v)
        (λ _. arm_entry-Inv (get id p.by_alloc) refl)

module _ (p : Plane) (v : Inv p) where
  forget_entry-Inv :
      (id : ℕ) (found : Option AllocEntry)
      → get id p.by_alloc ≡ found
      → Inv (Alloc.forget_entry id found p)
  unfolding Alloc.forget_entry
  forget_entry-Inv id none e = del_queued-Inv _ (del_pending-Inv p v id) id
  forget_entry-Inv id (some entry) e = drop_entry-Inv p v id 0 entry e

  pub forget-Inv : (id : ℕ) → Inv (Alloc.forget id p)
  unfolding Alloc.forget
  forget-Inv id = forget_entry-Inv id (get id p.by_alloc) refl

  claim-Inv :
      (id : ℕ) (src : AddrPort) (now : ℕ) (found : Option AllocEntry)
      → is_valid src ≡ true
      → get id p.by_alloc ≡ found
      → Inv (Register.claim id src now found p)
  unfolding Register.claim
  claim-Inv id src now none known e = del_pending-Inv p v id
  claim-Inv id src now (some entry) known e =
      del_pending-Inv _ (bind-Inv p v id now entry e src known) id

  register_pending-Inv :
      (id : ℕ) (src : AddrPort) (nonce : Bytes) (now checked : ℕ) (pend : Option PendingEntry)
      → is_valid src ≡ true
      → Inv (Register.register_pending id src nonce now checked pend p)
  unfolding Register.register_pending
  register_pending-Inv id src nonce now checked none known =
      queue_punch-Inv p v id src nonce now known
  register_pending-Inv id src nonce now checked (some pend) known =
      if_cases Inv (ltb pend.expires checked) _ _ (λ _. del_pending-Inv p v id)
        λ _.
          if_cases Inv (pend.nonce == nonce) _ _
            (λ _. claim-Inv id src now (get id p.by_alloc) known refl) (λ _. v)

  pub register-Inv :
      (id : ℕ) (src : AddrPort) (nonce : Bytes) (now checked : ℕ)
      → is_valid src ≡ true
      → Inv (Register.register id src nonce now checked p)
  unfolding Register.register
  register-Inv id src nonce now checked =
      register_pending-Inv id src nonce now checked (get id p.pending)

  bump_sender-Inv : (src : AddrPort) (now : ℕ) → Inv (Register.bump_sender src now p)
  unfolding Register.bump_sender
  bump_sender-Inv src now = elim (Option-cases (get src p.src2id)) [
    | inl e ↦ rw (e, Register.bump_sender) v
    | inr (id, e) ↦ elim (Option-cases (get id p.by_alloc)) [
      | inl gone ↦ rw (e, gone, Register.bump_sender) v
      | inr (entry, found) ↦
          rw (e, found, Register.bump_sender) (refresh-Inv p v id now entry found)
    ]
  ]

  pub receive-Inv :
      (buf : Bytes) (src : AddrPort) (now checked : ℕ)
      → is_valid src ≡ true
      → Inv (Register.receive buf src now checked p).0
  unfolding Register.receive
  receive-Inv buf src now checked known =
      if_cases {A = Plane × Option (AddrPort × Bytes)} (λ r. Inv r.0) (ltb (length buf) 4) _ _
        (λ _. v)
        λ _.
          if_cases {A = Plane × Option (AddrPort × Bytes)} (λ r. Inv r.0) (Register.be_u32 buf == 0)
            _ _
            (λ _.
              if_cases {A = Plane × Option (AddrPort × Bytes)} (λ r. Inv r.0)
                (ltb (length buf) (8 + punch_nonce_size)) _ _ (λ _. v)
                λ _. register-Inv _ src _ now checked known)
            (λ _. bump_sender-Inv src now)

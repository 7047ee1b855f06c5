-- ===== src/Forward/Evidence.antt =====
-- Who may move an allocation to an address: what each operation of the plane needs to have seen.
use outrelay_relay.Common.{
  ℕ, ◌≡◌, true, Bool, nat_eq, bytes_eq, Bytes, Dict, get, put, del, get-put, get-del, eq_iff,
  Bool-cases, inl, inr, ◌==◌, some, arith, ◌+◌,
}
use outrelay_relay.Forward.State.{
  AddrPort, AllocEntry, PendingEntry, QueuedPunch, Plane, is_valid, addr_eq,
}
use outrelay_relay.Forward.Register

-- `Arms id uri nonce`: the agent armed the nonce. `Punches id src nonce`: the address sent it.
module _ (Arms : ℕ → Bytes → Bytes → Bool) (Punches : ℕ → AddrPort → Bytes → Bool) where
  abbrev pub Earned : ℕ → AllocEntry → Type 0
  Earned id entry =
      (nonce : Bytes) × (Arms id entry.uri nonce ≡ true) × (Punches id entry.src nonce ≡ true)

  pub record Evidence (p : Plane) : Type 0 where
    pub pending_ev :
        (id : ℕ) (pend : PendingEntry)
        → get id p.pending ≡ some pend
        → Arms id pend.uri pend.nonce ≡ true
    pub queued_ev :
        (id : ℕ) (q : QueuedPunch) → get id p.queued ≡ some q → Punches id q.src q.nonce ≡ true
    pub bound_ev :
        (id : ℕ) (entry : AllocEntry)
        → get id p.by_alloc ≡ some entry
        → is_valid entry.src ≡ true
        → Earned id entry

  -- Entries may go from every table.
  pub Evidence-fewer :
      (p q : Plane)
      → Evidence p
      → ((id : ℕ) (pend : PendingEntry)
          → get id q.pending ≡ some pend
          → get id p.pending ≡ some pend)
      → ((id : ℕ) (w : QueuedPunch) → get id q.queued ≡ some w → get id p.queued ≡ some w)
      → ((id : ℕ) (entry : AllocEntry)
          → get id q.by_alloc ≡ some entry
          → get id p.by_alloc ≡ some entry)
      → Evidence q
  Evidence-fewer p q v hp hq hb = record {
    pending_ev = λ id pend e. v.pending_ev id pend (hp id pend e);
    queued_ev = λ id w e. v.queued_ev id w (hq id w e);
    bound_ev = λ id entry e. v.bound_ev id entry (hb id entry e);
  }

  module _ (p : Plane) (v : Evidence p) where
    pub put-Evidence :
        (id : ℕ) (entry : AllocEntry) (ids : Dict AddrPort ℕ)
        → (is_valid entry.src ≡ true → Earned id entry)
        → Evidence (record p { by_alloc = put id entry p.by_alloc; src2id = ids })
    put-Evidence id entry ids earned = record {
      pending_ev = v.pending_ev;
      queued_ev = v.queued_ev;
      bound_ev = λ i found e known. elim (Bool-cases (id == i)) [
        | inl same ↦
            let (nonce, a, b) = earned (ground (arith, get-put id i entry p.by_alloc)) in
            (
              nonce,
              ground (arith, get-put id i entry p.by_alloc),
              ground (arith, get-put id i entry p.by_alloc),
            )
        | inr other ↦ v.bound_ev i found (ground (arith, get-put id i entry p.by_alloc)) known
      ];
    }

    pub bind-Evidence :
        (id : ℕ) (src : AddrPort) (now : ℕ) (entry : AllocEntry)
        → Earned id (record entry { src = src })
        → Evidence (Register.bind id src now entry p)
    unfolding Register.bind
    bind-Evidence id src now entry earned = elim (Bool-cases (entry.src == src)) [
      | inl same ↦ rw same (
          put-Evidence id (record entry { last_seen = now }) p.src2id
            λ _. let (nonce, a, b) = earned in (nonce, a, ground (arith, eq_iff entry.src src)))
      | inr moves ↦
          rw moves (put-Evidence id (record entry { src = src; last_seen = now }) _ (λ _. earned))
    ]

    pub hold_pending-Evidence :
        (id : ℕ) (uri nonce : Bytes) (now : ℕ)
        → Arms id uri nonce ≡ true
        → Evidence (Register.hold_pending id uri nonce now p)
    unfolding Register.hold_pending
    hold_pending-Evidence id uri nonce now a =
        let held : PendingEntry = record {
          uri = uri;
          nonce = nonce;
          expires = now + Register.pending_window p;
        } in
        record {
          pending_ev = λ i pend e. ground (arith, get-put id i held p.pending, v.pending_ev i pend);
          queued_ev = v.queued_ev;
          bound_ev = v.bound_ev;
        }

    pub queue_punch-Evidence :
        (id : ℕ) (src : AddrPort) (nonce : Bytes) (now : ℕ)
        → Punches id src nonce ≡ true
        → Evidence (Register.queue_punch id src nonce now p)
    unfolding Register.queue_punch
    queue_punch-Evidence id src nonce now b =
        let waiting : QueuedPunch = record {
          src = src;
          nonce = nonce;
          expires = now + Register.pending_window p;
        } in
        record {
          pending_ev = v.pending_ev;
          queued_ev = λ i q e. ground (arith, get-put id i waiting p.queued, v.queued_ev i q);
          bound_ev = v.bound_ev;
        }

    pub del_pending-Evidence : (id : ℕ) → Evidence (record p { pending = del id p.pending })
    del_pending-Evidence id =
        Evidence-fewer p _ v (λ i pend e. ground (arith, get-del id i p.pending)) (λ i q e. e)
          (λ i en e. e)

    pub del_queued-Evidence : (id : ℕ) → Evidence (record p { queued = del id p.queued })
    del_queued-Evidence id =
        Evidence-fewer p _ v (λ i pend e. e) (λ i q e. ground (arith, get-del id i p.queued))
          (λ i en e. e)

  -- Less to have seen.
  pub Evidence-weaken :
      (A : ℕ → Bytes → Bytes → Bool) (B : ℕ → AddrPort → Bytes → Bool) (p : Plane)
      → ((id : ℕ) (uri nonce : Bytes) → A id uri nonce ≡ true → Arms id uri nonce ≡ true)
      → ((id : ℕ) (src : AddrPort) (nonce : Bytes)
          → B id src nonce ≡ true
          → Punches id src nonce ≡ true)
      → ((id : ℕ) (pend : PendingEntry)
          → get id p.pending ≡ some pend
          → A id pend.uri pend.nonce ≡ true)
      → ((id : ℕ) (q : QueuedPunch) → get id p.queued ≡ some q → B id q.src q.nonce ≡ true)
      → ((id : ℕ) (entry : AllocEntry)
          → get id p.by_alloc ≡ some entry
          → is_valid entry.src ≡ true
          → (nonce : Bytes) × (A id entry.uri nonce ≡ true) × (B id entry.src nonce ≡ true))
      → Evidence p
  Evidence-weaken A B p ha hb pend queue bound = record {
    pending_ev = λ id pd e. ha id pd.uri pd.nonce (pend id pd e);
    queued_ev = λ id q e. hb id q.src q.nonce (queue id q e);
    bound_ev = λ id entry e known.
        let (nonce, a, b) = bound id entry e known in
        (nonce, ha id entry.uri nonce a, hb id entry.src nonce b);
  }

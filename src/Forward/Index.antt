-- ===== src/Forward/Index.antt =====
-- The tables of the plane agree with one another, whatever it is asked to do.
use outrelay_relay.Common.{
  ℕ, ◌+◌, ◌<◌, true, false, none, some, ◌≡◌, refl, arith, if◌then◌else◌, ◌==◌, inl, inr, Bool-cases,
  eq_iff, nat_eq, bytes_eq, Bytes, Dict, get, del, put, get-del, get-put,
}
use outrelay_relay.Forward.State.{
  AddrPort, unset, endpoint, is_valid, addr_eq, AllocEntry, PendingEntry, QueuedPunch, Plane,
  new_plane,
}
use outrelay_relay.Forward.Alloc
use outrelay_relay.Forward.Register
use outrelay_relay.Forward.Views.{owner_at, src_at, owned_by, listed, listed-remove_id}

-- An agent's set lists exactly the allocations that it owns, an id above the counter and the id 0
-- are free, the reverse index points to entries that are bound to the address, and an armed nonce
-- stands beside a live allocation of the agent that armed it.
pub record Inv (p : Plane) : Type 0 where
  pub indexed : (uri : Bytes) (id : ℕ) → listed uri id p.by_uri ≡ owned_by uri (get id p.by_alloc)
  pub fresh : (id : ℕ) → p.next_id < id → get id p.by_alloc ≡ none
  pub reserved : get 0 p.by_alloc ≡ none
  pub reversed :
      (src : AddrPort) (id : ℕ) → get src p.src2id ≡ some id → src_at (get id p.by_alloc) ≡ some src
  pub armed :
      (id : ℕ) (pend : PendingEntry)
      → get id p.pending ≡ some pend
      → owner_at (get id p.by_alloc) ≡ some pend.uri
  pub src_known : get unset p.src2id ≡ none
  pub queue_known : (id : ℕ) (q : QueuedPunch) → get id p.queued ≡ some q → is_valid q.src ≡ true

pub new_plane-Inv : Inv new_plane
unfolding new_plane get
new_plane-Inv = record {
  indexed = λ uri id. refl;
  fresh = λ id h. refl;
  reserved = refl;
  reversed = λ src id h. ground arith;
  armed = λ id pend h. ground arith;
  src_known = refl;
  queue_known = λ id q h. ground arith;
}

unset_of_not_valid : (a : AddrPort) → is_valid a ≡ false → a ≡ unset
unfolding is_valid
unset_of_not_valid unset h = refl
unset_of_not_valid (endpoint ip port) h = cc

-- Writing an entry back under another address or time changes neither its owner nor the ids in use.
module _ (p : Plane) (v : Inv p) (id now : ℕ) (entry : AllocEntry)
    (h : get id p.by_alloc ≡ some entry) where
  pub refresh-Inv :
      Inv (record p { by_alloc = put id (record entry { last_seen = now }) p.by_alloc })
  refresh-Inv =
      let seen = record entry { last_seen = now } in
      record {
        indexed = λ uri i. ground (arith, get-put id i seen p.by_alloc, v.indexed uri i);
        fresh = λ i lt. ground (arith, get-put id i seen p.by_alloc, v.fresh i);
        reserved = ground (arith, get-put id 0 seen p.by_alloc, v.reserved);
        reversed = λ s i e. ground (arith, get-put id i seen p.by_alloc, v.reversed s i);
        armed = λ i pend e. ground (arith, get-put id i seen p.by_alloc, v.armed i pend);
        src_known = v.src_known;
        queue_known = v.queue_known;
      }

  move-Inv :
      (src : AddrPort) (ids : Dict AddrPort ℕ)
      → is_valid src ≡ true
      → ((s : AddrPort) → get s ids ≡ (if entry.src == s then none else get s p.src2id))
      → Inv (record p {
        by_alloc = put id (record entry { src = src; last_seen = now }) p.by_alloc;
        src2id = put src id ids;
      })
  unfolding is_valid
  move-Inv src ids known gone =
      let moved = record entry { src = src; last_seen = now } in
      record {
        indexed = λ uri i. ground (arith, get-put id i moved p.by_alloc, v.indexed uri i);
        fresh = λ i lt. ground (arith, get-put id i moved p.by_alloc, v.fresh i);
        reserved = ground (arith, get-put id 0 moved p.by_alloc, v.reserved);
        reversed = λ s i e. ground (
          arith,
          get-put id i moved p.by_alloc,
          get-put src s id ids,
          gone s,
          v.reversed s i,
          eq_iff src s,
          eq_iff entry.src s,
        );
        armed = λ i pend e. ground (arith, get-put id i moved p.by_alloc, v.armed i pend);
        src_known =
            ground (arith, get-put src unset id ids, gone unset, v.src_known, eq_iff src unset);
        queue_known = v.queue_known;
      }

  pub bind-Inv : (src : AddrPort) → is_valid src ≡ true → Inv (Register.bind id src now entry p)
  unfolding Register.bind
  bind-Inv src known = elim (Bool-cases (entry.src == src)) [
    | inl same ↦ rw same refresh-Inv
    | inr moves ↦ elim (Bool-cases (is_valid entry.src)) [
      | inl bound ↦
          rw (moves, bound)
            (move-Inv src (del entry.src p.src2id) known λ s. get-del entry.src s p.src2id)
      | inr unbound ↦
          rw (moves, unbound)
            (move-Inv src p.src2id known λ s.
              ground (arith, unset_of_not_valid entry.src unbound, eq_iff entry.src s, v.src_known))
    ]
  ]

  pub drop_entry-Inv : Inv (Alloc.drop_entry id entry p)
  unfolding Alloc.drop_entry
  drop_entry-Inv = record {
    indexed = λ uri i. ground (
      arith,
      listed-remove_id entry.uri uri id i p.by_uri,
      get-del id i p.by_alloc,
      v.indexed uri i,
      eq_iff entry.uri uri,
    );
    fresh = λ i lt. ground (arith, get-del id i p.by_alloc, v.fresh i);
    reserved = ground (arith, get-del id 0 p.by_alloc, v.reserved);
    reversed = λ src i e. ground (
      arith,
      get-del entry.src src p.src2id,
      get-del id i p.by_alloc,
      v.reversed src i,
      eq_iff entry.src src,
    );
    armed =
        λ i pend e. ground (arith, get-del id i p.pending, get-del id i p.by_alloc, v.armed i pend);
    src_known = ground (arith, get-del entry.src unset p.src2id, v.src_known);
    queue_known = λ i q e. ground (arith, get-del id i p.queued, v.queue_known i q);
  }

-- The tables of nonces on their own: entries may always go, and one comes in for the owner alone.
module _ (p : Plane) (v : Inv p) where
  pub pending-Inv :
      (pends : Dict ℕ PendingEntry)
      → ((i : ℕ) (pend : PendingEntry)
          → get i pends ≡ some pend
          → owner_at (get i p.by_alloc) ≡ some pend.uri)
      → Inv (record p { pending = pends })
  pending-Inv pends h = record {
    indexed = v.indexed;
    fresh = v.fresh;
    reserved = v.reserved;
    reversed = v.reversed;
    armed = h;
    src_known = v.src_known;
    queue_known = v.queue_known;
  }

  pub queued-Inv :
      (punches : Dict ℕ QueuedPunch)
      → ((i : ℕ) (q : QueuedPunch) → get i punches ≡ some q → is_valid q.src ≡ true)
      → Inv (record p { queued = punches })
  queued-Inv punches h = record {
    indexed = v.indexed;
    fresh = v.fresh;
    reserved = v.reserved;
    reversed = v.reversed;
    armed = v.armed;
    src_known = v.src_known;
    queue_known = h;
  }

  pub del_pending-Inv : (id : ℕ) → Inv (record p { pending = del id p.pending })
  del_pending-Inv id =
      pending-Inv (del id p.pending)
        λ i pend e. ground (arith, get-del id i p.pending, v.armed i pend)

  pub del_queued-Inv : (id : ℕ) → Inv (record p { queued = del id p.queued })
  del_queued-Inv id =
      queued-Inv (del id p.queued) λ i q e. ground (arith, get-del id i p.queued, v.queue_known i q)

  pub hold_pending-Inv :
      (id : ℕ) (uri nonce : Bytes) (now : ℕ)
      → owner_at (get id p.by_alloc) ≡ some uri
      → Inv (Register.hold_pending id uri nonce now p)
  unfolding Register.hold_pending
  hold_pending-Inv id uri nonce now h =
      let held : PendingEntry = record {
        uri = uri;
        nonce = nonce;
        expires = now + Register.pending_window p;
      } in
      pending-Inv (put id held p.pending)
        λ i pend e. ground (arith, get-put id i held p.pending, v.armed i pend)

  pub queue_punch-Inv :
      (id : ℕ) (src : AddrPort) (nonce : Bytes) (now : ℕ)
      → is_valid src ≡ true
      → Inv (Register.queue_punch id src nonce now p)
  unfolding Register.queue_punch
  queue_punch-Inv id src nonce now known =
      let waiting : QueuedPunch = record {
        src = src;
        nonce = nonce;
        expires = now + Register.pending_window p;
      } in
      queued-Inv (put id waiting p.queued)
        λ i q e. ground (arith, get-put id i waiting p.queued, v.queue_known i q)

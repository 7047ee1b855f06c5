-- ===== src/Forward/Delivery.antt =====
-- What an agent sees of the plane: its registration takes effect whichever half comes first, and a
-- datagram reaches the endpoint that its prefix names.
use outrelay_relay.Common.{
  ℕ, ◌≡◌, ◌≢◌, ◌+◌, ◌/◌, ◌%◌, ◌<◌, ◌≤◌, [], ◌∷◌, ◌++◌, nat_eq, bytes_eq, Bytes, get, refl, get-put,
  eq_iff, inl, inr, none, some, Option-cases, arith, Option, ◌⊎◌,
}
use outrelay_relay.Forward.State.{
  AddrPort, AllocEntry, PendingEntry, QueuedPunch, Plane, addr_eq, lookup, owner_of,
}
use outrelay_relay.Forward.Register

module _ (id : ℕ) (src : AddrPort) (now : ℕ) (entry : AllocEntry) (p : Plane) where
  pub lookup-bind : lookup id (Register.bind id src now entry p) ≡ some src
  unfolding lookup Register.bind
  lookup-bind = ground (
    arith,
    get-put id id (record entry { last_seen = now }) p.by_alloc,
    get-put id id (record entry { src = src; last_seen = now }) p.by_alloc,
    eq_iff entry.src src,
  )

  pub get-bind :
      (i : ℕ) → i ≢ id → get i (Register.bind id src now entry p).by_alloc ≡ get i p.by_alloc
  unfolding Register.bind
  get-bind i h = ground (
    arith,
    get-put id i (record entry { last_seen = now }) p.by_alloc,
    get-put id i (record entry { src = src; last_seen = now }) p.by_alloc,
  )

module _ (id : ℕ) (src : AddrPort) (nonce : Bytes) (q : Plane) (entry : AllocEntry) (now : ℕ) where
  register_claims :
      (checked : ℕ) (pend : PendingEntry)
      → get id q.by_alloc ≡ some entry
      → get id q.pending ≡ some pend
      → pend.nonce ≡ nonce
      → checked ≤ pend.expires
      → lookup id (Register.register id src nonce now checked q) ≡ some src
  unfolding lookup Register.register
  register_claims checked pend live e fits h = ground (
    arith,
    eq_iff pend.nonce nonce,
    eq_iff entry.src src,
    get-put id id (record entry { last_seen = now }) q.by_alloc,
    get-put id id (record entry { src = src; last_seen = now }) q.by_alloc,
  )

  arm_drains :
      (uri : Bytes) (w : QueuedPunch)
      → get id q.by_alloc ≡ some entry
      → entry.uri ≡ uri
      → uri ≢ []
      → get id q.queued ≡ some w
      → w.nonce ≡ nonce
      → w.src ≡ src
      → now < w.expires
      → lookup id (Register.arm_pending id uri nonce now q).0 ≡ some src
  unfolding lookup Register.arm_pending Register.bind
  arm_drains uri w live own named e fits from h = ground (
    arith,
    eq_iff uri [],
    eq_iff entry.uri uri,
    eq_iff w.nonce nonce,
    eq_iff entry.src src,
    get-put id id (record entry { last_seen = now }) q.by_alloc,
    get-put id id (record entry { src = src; last_seen = now }) q.by_alloc,
    get-put id id (record entry { src = w.src; last_seen = now }) q.by_alloc,
  )

module _ (id : ℕ) (uri nonce : Bytes) (src : AddrPort) (p : Plane) (entry : AllocEntry)
    (live : get id p.by_alloc ≡ some entry) (own : entry.uri ≡ uri) (named : uri ≢ [])
    (no_pending : get id p.pending ≡ none) (no_queued : get id p.queued ≡ none) where
  armed_plane :
      (now : ℕ)
      → (Register.arm_pending id uri nonce now p).0 ≡ Register.hold_pending id uri nonce now p
  unfolding Register.arm_pending Register.arm_entry Register.arm_live
  armed_plane now = ground (arith, eq_iff uri [], eq_iff entry.uri uri)

  -- For a live allocation of the agent with no half of a claim waiting, the arm and then a punch
  -- with the same nonce that is checked within the pending window bind the allocation to the
  -- punch's address.
  pub punch_after_arm :
      (armed now checked : ℕ)
      → checked ≤ armed + Register.pending_window p
      → lookup id
          (Register.register id src nonce now checked (Register.arm_pending id uri nonce armed p).0)
        ≡ some src
  punch_after_arm armed now checked h =
      let held : PendingEntry = record {
        uri = uri;
        nonce = nonce;
        expires = armed + Register.pending_window p;
      } in
      rw armed_plane (
        unfold Register.hold_pending in
        register_claims id src nonce (Register.hold_pending id uri nonce armed p) entry now checked
          held live (ground (arith, get-put id id held p.pending)) refl h)

  queued_plane :
      (now checked : ℕ)
      → Register.register id src nonce now checked p ≡ Register.queue_punch id src nonce now p
  unfolding Register.register
  queued_plane now checked = ground arith

  -- For a live allocation of the agent with no half of a claim waiting, a punch that overtakes its
  -- arm is held, and the arm with the same nonce within the pending window binds the allocation to
  -- the punch's address: the two halves of a claim may arrive in either order.
  pub arm_after_punch :
      (punched checked now : ℕ)
      → now < punched + Register.pending_window p
      → lookup id
          (Register.arm_pending id uri nonce now
            (Register.register id src nonce punched checked p)).0
        ≡ some src
  arm_after_punch punched checked now h =
      let waiting : QueuedPunch = record {
        src = src;
        nonce = nonce;
        expires = punched + Register.pending_window p;
      } in
      rw queued_plane (
        unfold Register.queue_punch in
        arm_drains id src nonce (Register.queue_punch id src nonce punched p) entry now uri waiting
          live own named (ground (arith, get-put id id waiting p.queued)) refl refl h)

-- What an agent puts before a payload: `binary.BigEndian.PutUint32`.
abbrev pub put_u32 : ℕ → Bytes
put_u32 n = (n / 16777216) ∷ (n / 65536 % 256) ∷ (n / 256 % 256) ∷ (n % 256) ∷ []

pub be_u32-put_u32 : (n : ℕ) (rest : Bytes) → Register.be_u32 (put_u32 n ++ rest) ≡ n
unfolding Register.be_u32
be_u32-put_u32 n rest = omega arith

module _ (src : AddrPort) (now : ℕ) (p : Plane) (i : ℕ) where
  lookup-bump_sender : lookup i (Register.bump_sender src now p) ≡ lookup i p
  unfolding lookup Register.bump_sender
  lookup-bump_sender = elim (Option-cases (get src p.src2id)) [
    | inl e ↦ ground arith
    | inr (id, e) ↦ elim (Option-cases (get id p.by_alloc)) [
      | inl gone ↦ ground arith
      | inr (entry, found) ↦
          ground (arith, get-put id i (record entry { last_seen = now }) p.by_alloc)
    ]
  ]

  owner_of-bump_sender : owner_of i (Register.bump_sender src now p) ≡ owner_of i p
  unfolding owner_of Register.bump_sender
  owner_of-bump_sender = elim (Option-cases (get src p.src2id)) [
    | inl e ↦ ground arith
    | inr (id, e) ↦ elim (Option-cases (get id p.by_alloc)) [
      | inl gone ↦ ground arith
      | inr (entry, found) ↦
          ground (arith, get-put id i (record entry { last_seen = now }) p.by_alloc)
    ]
  ]

pub receive_prefixed :
    (id : ℕ) (payload : Bytes) (src : AddrPort) (now checked : ℕ) (p : Plane)
    → 0 < id
    → Register.receive (put_u32 id ++ payload) src now checked p
      ≡ (Register.bump_sender src now p, Register.forward_to (get id p.by_alloc) payload)
unfolding Register.receive
receive_prefixed id payload src now checked p h = ground (arith, be_u32-put_u32 id payload)

-- The write that a datagram for the entry causes, if there is one.
abbrev pub Delivered : Option AllocEntry → Bytes → Option (AddrPort × Bytes) → Type 0
Delivered found payload write =
    ((entry : AllocEntry) × (found ≡ some entry) × (write ≡ some (entry.src, payload)))
    ⊎ ((found ≡ none) × (write ≡ none))

forward_to-Delivered :
    (found : Option AllocEntry) (payload : Bytes)
    → Delivered found payload (Register.forward_to found payload)
unfolding Register.forward_to
forward_to-Delivered none payload = inr (refl, refl)
forward_to-Delivered (some entry) payload = inl (entry, refl, refl)

-- A data datagram, whose prefix is an id above 0, is written without the prefix to the address of
-- the allocation under this id, and causes no write if there is none; it changes no owner and no
-- endpoint.
pub receive_data :
    (id : ℕ) (payload : Bytes) (src : AddrPort) (now checked : ℕ) (p : Plane)
    → 0 < id
    → let r = Register.receive (put_u32 id ++ payload) src now checked p in
      Delivered (get id p.by_alloc) payload r.1
      × ((i : ℕ) → lookup i r.0 ≡ lookup i p)
      × ((i : ℕ) → owner_of i r.0 ≡ owner_of i p)
receive_data id payload src now checked p h = rw (receive_prefixed id payload src now checked p h) (
  forward_to-Delivered (get id p.by_alloc) payload,
  λ i. lookup-bump_sender src now p i,
  λ i. owner_of-bump_sender src now p i,
)

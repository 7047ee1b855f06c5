-- ===== src/Forward/Register.antt =====
-- pkg/forward/plane.go: `ArmPending`, `register` and the datagram loop of `Run`.
use outrelay_relay.Common.{
  ℕ, ◌+◌, ◌*◌, ◌&&◌, Option, none, some, [], ◌∷◌, ltb, if◌then◌else◌, length, take, drop, ◌==◌,
  nat_eq, bytes_eq, Bytes, get, del, put,
}
use outrelay_relay.Forward.State.{
  AddrPort, is_valid, addr_eq, punch_nonce_size, default_pending_ttl, PendingEntry, QueuedPunch,
  ArmError, err_unknown_alloc, err_owner_mismatch, AllocEntry, Plane,
}

unfoldable pub pending_window : Plane → ℕ
pending_window p = if p.pending_ttl == 0 then default_pending_ttl else p.pending_ttl

-- The block that `ArmPending` and `register` share: move the entry to `src`, and mark it as seen.
unfoldable pub bind : ℕ → AddrPort → ℕ → AllocEntry → Plane → Plane
bind id src now entry p =
    if entry.src == src
    then record p { by_alloc = put id (record entry { last_seen = now }) p.by_alloc }
    else record p {
      by_alloc = put id (record entry { src = src; last_seen = now }) p.by_alloc;
      src2id = put src id (if is_valid entry.src then del entry.src p.src2id else p.src2id);
    }

unfoldable pub hold_pending : ℕ → Bytes → Bytes → ℕ → Plane → Plane
unfolding pending_window
hold_pending id uri nonce now p = record p {
  pending =
      put id (record { uri = uri; nonce = nonce; expires = now + pending_window p }) p.pending;
}

-- A punch that came first is drained, whether or not its nonce fits.
unfoldable pub arm_live : ℕ → Bytes → Bytes → ℕ → AllocEntry → Option QueuedPunch → Plane → Plane
arm_live id uri nonce now entry none p = hold_pending id uri nonce now p
arm_live id uri nonce now entry (some q) p =
    let drained = record p { queued = del id p.queued } in
    if ltb now q.expires && q.nonce == nonce
    then bind id q.src now entry drained
    else hold_pending id uri nonce now drained

unfoldable pub arm_entry :
    ℕ → Bytes → Bytes → ℕ → Option AllocEntry → Plane → Plane × Option ArmError
arm_entry id uri nonce now none p = (p, some err_unknown_alloc)
arm_entry id uri nonce now (some entry) p =
    if entry.uri == uri
    then (arm_live id uri nonce now entry (get id p.queued) p, none)
    else (p, some err_owner_mismatch)

unfoldable pub arm_pending : ℕ → Bytes → Bytes → ℕ → Plane → Plane × Option ArmError
unfolding arm_entry arm_live hold_pending
arm_pending id uri nonce now p =
    if uri == []
    then (p, some err_owner_mismatch)
    else arm_entry id uri nonce now (get id p.by_alloc) p

unfoldable pub queue_punch : ℕ → AddrPort → Bytes → ℕ → Plane → Plane
unfolding pending_window
queue_punch id src nonce now p = record p {
  queued = put id (record { src = src; nonce = nonce; expires = now + pending_window p }) p.queued;
}

unfoldable pub claim : ℕ → AddrPort → ℕ → Option AllocEntry → Plane → Plane
unfolding bind
claim id src now none p = record p { pending = del id p.pending }
claim id src now (some entry) p =
    let q = bind id src now entry p in record q { pending = del id q.pending }

unfoldable pub register_pending : ℕ → AddrPort → Bytes → ℕ → ℕ → Option PendingEntry → Plane → Plane
register_pending id src nonce now checked none p = queue_punch id src nonce now p
register_pending id src nonce now checked (some pend) p =
    if ltb pend.expires checked
    then record p { pending = del id p.pending }
    else if pend.nonce == nonce
    then claim id src now (get id p.by_alloc) p
    else p

-- `now` and `checked` are the two readings of the clock.
unfoldable pub register : ℕ → AddrPort → Bytes → ℕ → ℕ → Plane → Plane
unfolding register_pending queue_punch claim
register id src nonce now checked p = register_pending id src nonce now checked (get id p.pending) p

-- `binary.BigEndian.Uint32` of the first four bytes.
unfoldable pub be_u32 : Bytes → ℕ
be_u32 (a ∷ b ∷ c ∷ d ∷ rest) = ((a * 256 + b) * 256 + c) * 256 + d
be_u32 _ = 0

-- The sender of a datagram has shown that it is alive.
unfoldable pub bump_sender : AddrPort → ℕ → Plane → Plane
bump_sender src now p = elim (get src p.src2id) [
  | none ↦ p
  | some id ↦ elim (get id p.by_alloc) [
    | none ↦ p
    | some entry ↦ record p { by_alloc = put id (record entry { last_seen = now }) p.by_alloc }
  ]
]

unfoldable pub forward_to : Option AllocEntry → Bytes → Option (AddrPort × Bytes)
forward_to none payload = none
forward_to (some entry) payload = some (entry.src, payload)

-- One turn of the loop of `Run`: the plane after a datagram, and the write that it causes.
unfoldable pub receive : Bytes → AddrPort → ℕ → ℕ → Plane → Plane × Option (AddrPort × Bytes)
unfolding be_u32 bump_sender forward_to
receive buf src now checked p =
    if ltb (length buf) 4
    then (p, none)
    else if be_u32 buf == 0
    then if ltb (length buf) (8 + punch_nonce_size) then (p, none) else (
      register (be_u32 (drop 4 buf)) src (take punch_nonce_size (drop 8 buf)) now checked p,
      none,
    )
    else (bump_sender src now p, forward_to (get (be_u32 buf) p.by_alloc) (drop 4 buf))

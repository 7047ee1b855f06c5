-- ===== src/Forward/Liveness.antt =====
-- How a datagram keeps its sender's allocation alive, and when it fails to.
use outrelay_relay.Common.{
  ℕ, ◌≡◌, ◌≢◌, ◌<◌, ◌++◌, nat_eq, Bytes, get, get-put, get-del, eq_iff, some, arith,
}
use outrelay_relay.Forward.State.{AddrPort, AllocEntry, Plane, addr_eq}
use outrelay_relay.Forward.Alloc
use outrelay_relay.Forward.Register
use outrelay_relay.Forward.Delivery.{put_u32, receive_prefixed}

module _ (id : ℕ) (payload : Bytes) (src : AddrPort) (now checked : ℕ) (p : Plane)
    (data_packet : 0 < id) where
  -- A data datagram from an address that the reverse index knows marks the allocation it points to
  -- as seen now.
  pub receive_refreshes :
      (b : ℕ) (entry : AllocEntry)
      → get src p.src2id ≡ some b
      → get b p.by_alloc ≡ some entry
      → get b (Register.receive (put_u32 id ++ payload) src now checked p).0.by_alloc
        ≡ some (record entry { last_seen = now })
  unfolding Register.bump_sender
  receive_refreshes b entry known found =
      rw (receive_prefixed id payload src now checked p data_packet)
        (ground (arith, get-put b b (record entry { last_seen = now }) p.by_alloc))

  -- Of two allocations bound to one address, releasing one takes the address out of the reverse
  -- index, so that a data datagram from the address no longer marks the other one as seen.
  pub forget_stops_refresh :
      (a b : ℕ) (gone entry : AllocEntry)
      → a ≢ b
      → get a p.by_alloc ≡ some gone
      → get b p.by_alloc ≡ some entry
      → gone.src ≡ src
      → entry.src ≡ src
      → get b
          (Register.receive (put_u32 id ++ payload) src now checked (Alloc.forget a p)).0.by_alloc
        ≡ some entry
  unfolding Register.bump_sender Alloc.forget
  forget_stops_refresh a b gone entry ne e f at_gone at_entry =
      rw (receive_prefixed id payload src now checked (Alloc.forget a p) data_packet)
        (ground (arith, get-del a b p.by_alloc, get-del gone.src src p.src2id, eq_iff gone.src src))

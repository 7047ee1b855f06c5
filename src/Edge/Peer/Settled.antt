-- ===== src/Edge/Peer/Settled.antt =====
-- pkg/edge/edge.go: what `forwardToPeer` leaves in the pool and tells the consumer.
use outrelay_relay.Registry.{Provider, Remote}
use outrelay_relay.Intra.{
  Pool, lookup_conn, keep_conn, keep_dialed, get_conn, drop_conn, PeerReply, forward_stream,
}
use outrelay_relay.Edge.Frames.{reject_consumer}
use outrelay_relay.Edge.Streams.{OpenStream}
use outrelay_relay.Edge.Peer.{Forwarded, with_peer, forward_to_peer, ℕ, Bytes}
use outrelay_relay.Common.{
  ℕ, Bytes, ◌≡◌, get, Option, true, some, [], ◌≢◌, false, if_cases, none, arith, get-del,
  Option-cases, bytes_eq, eq_refl, inr, codes, inl, eq_iff, refl, put, ◌⊎◌, subst, sym, get-put,
}

module _ (caller : Provider) (o : OpenStream) (remote : Remote) (reply : ℕ → PeerReply) where
  -- What is left in the pool, from the pool that `Get` was asked of.
  abbrev Settled : Pool → Forwarded → Type 0
  Settled p f =
      (f.spliced ≡ true
        → (c : ℕ) × (get remote.relay_id f.pool.conns ≡ some c)
          × (forward_stream (reply c) ≡ true)
          × (f.writes ≡ []))
      × (f.spliced ≡ false
          → (reason : Bytes) × (get remote.relay_id f.pool.conns ≡ none)
            × (f.writes ≡ reject_consumer (some caller) o.stream_id 502 reason))
      × ((id : Bytes) → id ≢ remote.relay_id → get id f.pool.conns ≡ get id p.conns)

  keep_conn_fresh :
      (c : ℕ) (p : Pool)
      → get remote.relay_id p.conns ≡ none
      → keep_conn remote.relay_id c p ≡ (c, record p { conns = put remote.relay_id c p.conns })
  unfolding keep_conn
  keep_conn_fresh c p missing = ground (arith, missing)

  get_conn_cases :
      (dialed : Option ℕ) (p : Pool)
      → ((c : ℕ) × (get remote.relay_id p.conns ≡ some c)
          × (get_conn remote.relay_id dialed p ≡ (some c, p)))
        ⊎ ((get remote.relay_id p.conns ≡ none)
            × (get_conn remote.relay_id dialed p ≡ keep_dialed remote.relay_id dialed p))
  unfolding get_conn lookup_conn
  get_conn_cases dialed p = elim (Option-cases (get remote.relay_id p.conns)) [
    | inl missing ↦ inr (missing, ground (arith, missing))
    | inr (c, cached) ↦ inl (c, cached, ground (arith, cached))
  ]

  with_peer-Settled :
      (c : ℕ) (p q : Pool)
      → get remote.relay_id q.conns ≡ some c
      → ((id : Bytes) → id ≢ remote.relay_id → get id q.conns ≡ get id p.conns)
      → Settled p (with_peer caller o remote reply (some c, q))
  unfolding with_peer drop_conn
  with_peer-Settled c p q cached same =
      if_cases (Settled p) (forward_stream (reply c)) _ _
        (λ accepted. (λ h. (c, cached, accepted, refl), λ h. absurd (ground (arith, h)), same))
        λ refused. (
          λ h. absurd (ground (arith, h)),
          λ h. (
            codes "peer relay forward failed",
            ground
                (arith, get-del remote.relay_id remote.relay_id q.conns, eq_refl remote.relay_id),
            refl,
          ),
          λ id other.
              ground (
                arith,
                get-del remote.relay_id id q.conns,
                same id other,
                eq_iff remote.relay_id id,
              ),
        )

  fresh-Settled :
      (dialed : Option ℕ) (p : Pool)
      → get remote.relay_id p.conns ≡ none
      → Settled p (with_peer caller o remote reply (keep_dialed remote.relay_id dialed p))
  unfolding keep_dialed with_peer
  fresh-Settled none p missing = (
    λ h. absurd (ground (arith, h)),
    λ h. (codes "peer relay unreachable", missing, refl),
    λ id other. refl,
  )
  fresh-Settled (some c) p missing =
      subst (λ (x : ℕ × Pool). Settled p (with_peer caller o remote reply (some x.0, x.1)))
        (sym (keep_conn_fresh c p missing))
        (with_peer-Settled c p (record p { conns = put remote.relay_id c p.conns })
          (ground
            (arith, get-put remote.relay_id remote.relay_id c p.conns, eq_refl remote.relay_id))
          λ id other.
            ground (arith, get-put remote.relay_id id c p.conns, eq_iff remote.relay_id id))

  -- A stream that goes to a peer relay is spliced, on the connection that is then cached for the
  -- peer and with no frame written, or the consumer is rejected with 502 and no connection stays
  -- cached for the peer; the connections of other peers stay as they are.
  pub forward_to_peer_lem :
      (dialed : Option ℕ) (p : Pool)
      → let f = forward_to_peer caller o remote dialed reply p in
        (f.spliced ≡ true
          → (c : ℕ) × (get remote.relay_id f.pool.conns ≡ some c)
            × (forward_stream (reply c) ≡ true)
            × (f.writes ≡ []))
        × (f.spliced ≡ false
            → (reason : Bytes) × (get remote.relay_id f.pool.conns ≡ none)
              × (f.writes ≡ reject_consumer (some caller) o.stream_id 502 reason))
        × ((id : Bytes) → id ≢ remote.relay_id → get id f.pool.conns ≡ get id p.conns)
  unfolding forward_to_peer
  forward_to_peer_lem dialed p = elim (get_conn_cases dialed p) [
    | inl (c, cached, e) ↦
        subst (λ (x : Option ℕ × Pool). Settled p (with_peer caller o remote reply x)) (sym e)
          (with_peer-Settled c p p cached λ id other. refl)
    | inr (missing, e) ↦
        subst (λ (x : Option ℕ × Pool). Settled p (with_peer caller o remote reply x)) (sym e)
          (fresh-Settled dialed p missing)
  ]

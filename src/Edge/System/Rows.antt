-- ===== src/Edge/System/Rows.antt =====
-- pkg/edge/edge.go: which handler a recorded pair belongs to, and which names the relay serves, while the
-- handlers run side by side.
use outrelay_relay.Common.{
  ℕ, none, some, ◌≡◌, ◌≢◌, arith, Bytes, Dict, get, put, del, get-put, get-del, eq_iff, inl, inr,
  Bool-cases, nat_eq, ◌==◌, ◌⊎◌, [], eq_refl, sym, ◌∙◌, ap,
}
use outrelay_relay.Registry.{Provider, Registry, lookup_agent}
use outrelay_relay.Edge.Pairs.{Pairs, StreamPair, forget_pair}
use outrelay_relay.Edge.Streams.{Waiting}
use outrelay_relay.Edge.System.{Process, waits, runs, splices}
use outrelay_relay.Edge.System.Allocs.{Streams}

abbrev pub stream_of : Process → ℕ
stream_of (waits w) = w.open_frame.stream_id
stream_of (runs w course) = w.open_frame.stream_id
stream_of (splices id self peer) = id

abbrev pub names_of : Process → StreamPair
names_of (waits w) = record { consumer_uri = w.caller.uri; provider_uri = w.provider.uri }
names_of (runs w course) = record { consumer_uri = w.caller.uri; provider_uri = w.provider.uri }
names_of (splices id self peer) = record { consumer_uri = self.uri; provider_uri = peer.uri }

-- A handler of the stream of this id is running, and the stream has these names.
abbrev pub Served : Streams → ℕ → StreamPair → Type 0
Served st id p =
    (n : ℕ) × (x : Process) × (get n st ≡ some x) × (stream_of x ≡ id) × (names_of x ≡ p)

-- Every recorded pair is that of a handler that is running, and none is under id 0.
pub record Rows (pairs : Pairs) (st : Streams) : Type 0 where
  pub served : (id : ℕ) (p : StreamPair) → get id pairs ≡ some p → Served st id p
  pub unnamed : get 0 pairs ≡ none

module _ (pairs : Pairs) (st : Streams) (v : Rows pairs st) (n : ℕ) (x : Process) where
  -- A handler starts, or goes on with the stream that it has; what is new in the table is its pair.
  module _ (now : Pairs)
      (kept : (y : Process)
        → get n st ≡ some y
        → (stream_of y ≡ stream_of x) × (names_of y ≡ names_of x))
      (news : (id : ℕ) (p : StreamPair)
        → get id now ≡ some p
        → (get id pairs ≡ some p) ⊎ ((stream_of x ≡ id) × (names_of x ≡ p)))
      (zero_free : get 0 now ≡ none) where
    served_on : (id : ℕ) (p : StreamPair) → Served st id p → Served (put n x st) id p
    served_on id p (m, y, e, i, q) = elim (Bool-cases (n == m)) [
      | inl same ↦
          let was = kept y (ground (arith, eq_iff n m, e)) in
          (n, x, ground (arith, get-put n n x st, eq_refl n), sym was.0 ∙ i, sym was.1 ∙ q)
      | inr other ↦ (m, y, ground (arith, get-put n m x st, e), i, q)
    ]

    pub next-Rows : Rows now (put n x st)
    next-Rows = record {
      served = λ id p h. elim (news id p h) [
        | inl was ↦ served_on id p (v.served id p was)
        | inr (i, q) ↦ (n, x, ground (arith, get-put n n x st, eq_refl n), i, q)
      ];
      unnamed = zero_free;
    }

  -- A handler ends and forgets the pair under its id.
  pub end-Rows : get n st ≡ some x → Rows (forget_pair (stream_of x) pairs) (del n st)
  unfolding forget_pair
  end-Rows here = record {
    served = λ id p h.
        left id p (ground (arith, get-del (stream_of x) id pairs))
          (ground (arith, get-del (stream_of x) id pairs, v.unnamed, eq_iff (stream_of x) id));
    unnamed = ground (arith, get-del (stream_of x) 0 pairs, v.unnamed);
  }
    where
      left :
          (id : ℕ) (p : StreamPair)
          → get id pairs ≡ some p
          → stream_of x ≢ id
          → Served (del n st) id p
      left id p was apart =
          let (m, y, e, i, q) = v.served id p was in
          elim (Bool-cases (n == m)) [
            | inl same ↦
                absurd
                  (apart (ap stream_of {x = x} {y = y} (ground (arith, eq_iff n m, e, here)) ∙ i))
            | inr other ↦ (m, y, ground (arith, get-del n m st, e), i, q)
          ]

-- A connection has a name; what stands in the directory under a name is a connection of that name; and
-- the caller of a stream that waits has a name.
pub record Names (conns : Dict ℕ Provider) (reg : Registry) (st : Streams) : Type 0 where
  pub connected : (conn : ℕ) (ac : Provider) → get conn conns ≡ some ac → ac.uri ≢ []
  pub directory :
      (uri : Bytes) (ac : Provider)
      → lookup_agent uri reg ≡ some ac
      → (ac.uri ≡ uri) × (ac.uri ≢ [])
  pub callers : (n : ℕ) (w : Waiting) → get n st ≡ some (waits w) → w.caller.uri ≢ []

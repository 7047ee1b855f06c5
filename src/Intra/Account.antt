-- ===== src/Intra/Account.antt =====
-- pkg/intra/pool.go: no connection that was dialed is lost, whoever else dials at the same time.
use outrelay_relay.Intra.{
  Pool, new_pool, keep_conn, drop_conn, close_conns, close_pool, Bytes, List, ℕ, get,
}
use outrelay_relay.Common.{
  Bytes, List, ℕ, get, ◌∷◌, ◌≡◌, Dict, Elem, Option-cases, some, inr, inl, [], ◌⊎◌, arith, entries,
  subst, bytes_eq, Bool-cases, get-entries, get-put, ◌==◌, ◌∙◌, eq_refl, eq_iff, get-del, refl, put,
  none, sym,
}

-- What is done with the pool: a dial of a peer that has ended with a connection, `Drop` and `Close`.
pub data PoolStep : Type 0 where
  dialed : Bytes → ℕ → PoolStep
  dropped : Bytes → PoolStep
  shut : PoolStep

unfoldable pub step : PoolStep → Pool → Pool
step (dialed relay_id c) p = (keep_conn relay_id c p).1
step (dropped relay_id) p = drop_conn relay_id p
step shut p = close_pool p

-- The last step comes first.
unfoldable pub after : List PoolStep → Pool
unfolding step
after [] = new_pool
after (s ∷ steps) = step s (after steps)

abbrev pub Accounted : Bytes → ℕ → Pool → Type 0
Accounted relay_id c p = (get relay_id p.conns ≡ some c) ⊎ Elem c p.closed

close_conns-Elem :
    (c : ℕ) (conns : Dict Bytes ℕ) (closed : List ℕ)
    → Elem c closed
    → Elem c (close_conns conns closed)
unfolding close_conns
close_conns-Elem c [] closed h = h
close_conns-Elem c ((id, d) ∷ conns) closed h = close_conns-Elem c conns (d ∷ closed) (inr h)

closes_all :
    (relay_id : Bytes) (c : ℕ) (conns : Dict Bytes ℕ) (closed : List ℕ)
    → get relay_id conns ≡ some c
    → Elem c (close_conns conns closed)
unfolding close_conns get
closes_all relay_id c [] closed h = absurd (ground (arith, h))
closes_all relay_id c ((id, d) ∷ conns) closed h = elim (Bool-cases (id == relay_id)) [
  | inl same ↦ close_conns-Elem c conns (d ∷ closed) (inl (ground (arith, same, h)))
  | inr other ↦ closes_all relay_id c conns (d ∷ closed) (ground (arith, other, h))
]

close_pool-Elem :
    (relay_id : Bytes) (c : ℕ) (p : Pool) → Accounted relay_id c p → Elem c (close_pool p).closed
unfolding close_pool
close_pool-Elem relay_id c p (inl cached) =
    closes_all relay_id c (entries p.conns) p.closed (get-entries relay_id p.conns ∙ cached)
close_pool-Elem relay_id c p (inr gone) = close_conns-Elem c (entries p.conns) p.closed gone

-- What the second half of `Get` leaves.
keep_conn_cases :
    (id : Bytes) (d : ℕ) (p : Pool)
    → ((keep_conn id d p).1 ≡ record p { conns = put id d p.conns }) × (get id p.conns ≡ none)
      ⊎ ((keep_conn id d p).1 ≡ record p { closed = d ∷ p.closed })
unfolding keep_conn
keep_conn_cases id d p = ground arith

keep_conn-Accounted :
    (relay_id id : Bytes) (c d : ℕ) (p : Pool)
    → Accounted relay_id c p
    → Accounted relay_id c (keep_conn id d p).1
keep_conn-Accounted relay_id id c d p known = elim (keep_conn_cases id d p) [
  | inl (e, free) ↦ subst (λ (q : Pool). Accounted relay_id c q) (sym e) (still known free)
  | inr e ↦ subst (λ (q : Pool). Accounted relay_id c q) (sym e) (also known)
]
  where
    still :
        Accounted relay_id c p
        → get id p.conns ≡ none
        → Accounted relay_id c (record p { conns = put id d p.conns })
    still (inl cached) free =
        inl (ground (arith, cached, free, get-put id relay_id d p.conns, eq_iff id relay_id))
    still (inr gone) free = inr gone

    also : Accounted relay_id c p → Accounted relay_id c (record p { closed = d ∷ p.closed })
    also (inl cached) = inl cached
    also (inr gone) = inr (inr gone)

drop_conn-Accounted :
    (relay_id id : Bytes) (c : ℕ) (p : Pool)
    → Accounted relay_id c p
    → Accounted relay_id c (drop_conn id p)
unfolding drop_conn
drop_conn-Accounted relay_id id c p (inr gone) = elim (Option-cases (get id p.conns)) [
  | inl free ↦ inr (rw free gone)
  | inr (existing, e) ↦ inr (rw e (inr gone))
]
drop_conn-Accounted relay_id id c p (inl cached) = elim (Bool-cases (id == relay_id)) [
  | inl same ↦ inr (rw ((eq_iff id relay_id).0 same, cached) (inl refl))
  | inr other ↦ inl (ground (arith, get-del id relay_id p.conns, other, cached))
]

dialed-Accounted :
    (relay_id : Bytes) (c : ℕ) (p : Pool) → Accounted relay_id c (keep_conn relay_id c p).1
unfolding keep_conn
dialed-Accounted relay_id c p = elim (Option-cases (get relay_id p.conns)) [
  | inl free ↦ inl (ground (arith, free, get-put relay_id relay_id c p.conns, eq_refl relay_id))
  | inr (existing, e) ↦ inr (ground (arith, e))
]

after-Accounted :
    (steps : List PoolStep) (relay_id : Bytes) (c : ℕ)
    → Elem (dialed relay_id c) steps
    → Accounted relay_id c (after steps)
unfolding after step
after-Accounted [] relay_id c h = elim h [ ]
after-Accounted (s ∷ steps) relay_id c (inl same) =
    subst (λ (x : PoolStep). Accounted relay_id c (step x (after steps))) same
      (dialed-Accounted relay_id c (after steps))
after-Accounted (dialed id d ∷ steps) relay_id c (inr h) =
    keep_conn-Accounted relay_id id c d (after steps) (after-Accounted steps relay_id c h)
after-Accounted (dropped id ∷ steps) relay_id c (inr h) =
    drop_conn-Accounted relay_id id c (after steps) (after-Accounted steps relay_id c h)
after-Accounted (shut ∷ steps) relay_id c (inr h) =
    inr (close_pool-Elem relay_id c (after steps) (after-Accounted steps relay_id c h))

-- Whatever dials, drops and closings of the pool come after one another, a connection that was
-- dialed is cached for its peer or has been closed, and Close leaves none that is not closed.
pub pool_account :
    (steps : List PoolStep) (relay_id : Bytes) (c : ℕ)
    → Elem (dialed relay_id c) steps
    → Accounted relay_id c (after steps) × Elem c (close_pool (after steps)).closed
pool_account steps relay_id c h =
    let known = after-Accounted steps relay_id c h in
    (known, close_pool-Elem relay_id c (after steps) known)

-- Of two dials of one peer that end one after the other, both callers get the connection that is
-- cached.
pub race_has_one_winner :
    (relay_id : Bytes) (c d : ℕ) (p : Pool)
    → let (first, q) = keep_conn relay_id c p in
      let (second, s) = keep_conn relay_id d q in
      (first ≡ second) × (get relay_id s.conns ≡ some first)
unfolding keep_conn
race_has_one_winner relay_id c d p =
    ground (arith, get-put relay_id relay_id c p.conns, eq_refl relay_id)

-- ===== src/Intra/Samples.antt =====
-- Concrete uses of the pool.
use outrelay_relay.Intra.{close_pool, Bytes, List, get}
use outrelay_relay.Intra.Account.{PoolStep, dialed, dropped, after, pool_account}
use outrelay_relay.Common.{
  Bytes, List, get, ◌≡◌, ◌∷◌, [], some, ◌⊎◌, Elem, inr, inl, bytes_eq, refl,
}

abbrev peer : Bytes
peer = 80 ∷ []

-- Two dials of one peer at the same time, and then the connection is dropped.
abbrev uses : List PoolStep
uses = dropped peer ∷ dialed peer 2 ∷ dialed peer 1 ∷ []

pool_account_example :
    ((get peer (after uses).conns ≡ some 2) ⊎ Elem 2 (after uses).closed)
    × Elem 2 (close_pool (after uses)).closed
pool_account_example = pool_account uses peer 2 (inr (inl refl))

-- ===== src/Policy/Cache/Entries.antt =====
-- pkg/policy/cache.go: which entries the map has after a call.
use outrelay_relay.Common.{
  ℕ, some, [], ◌∷◌, ◌+◌, ◌≡◌, ◌<◌, inl, inr, ◌⊎◌, arith, get, List, Option-cases, get-del, del,
  retain, ◌==◌, ltb, false, get-retain, get-put, Bool-cases, eq_iff,
}
use outrelay_relay.Policy.Rules.{Result}
use outrelay_relay.Policy.Cache.{
  CacheKey, CacheEntry, Cache, key_eq, drop_some, drop_expired, make_room, cache_put, cache_get,
  cache_ttl,
}

-- A hit is an entry that has not expired.
pub hit-entry :
    (k : CacheKey) (now : ℕ) (m : Cache) (r : Result)
    → (cache_get k now m).0 ≡ some r
    → (e : CacheEntry) × (get k m ≡ some e) × (e.res ≡ r) × (now < e.expires)
unfolding cache_get
hit-entry k now m r h = elim (Option-cases (get k m)) [
  | inl missing ↦ absurd (ground arith)
  | inr (e, found) ↦ (e, found, ground arith, ground arith)
]

-- A lookup adds no entry.
pub get-cache_get :
    (j : CacheKey) (now : ℕ) (m : Cache) (k : CacheKey) (e : CacheEntry)
    → get k (cache_get j now m).1 ≡ some e
    → get k m ≡ some e
unfolding cache_get
get-cache_get j now m k e h = ground (arith, get-del j k m)

module _ (range : Cache → List CacheKey) where
  get-drop_some :
      (ks : List CacheKey) (i : ℕ) (m : Cache) (k : CacheKey) (e : CacheEntry)
      → get k (drop_some ks i m) ≡ some e
      → get k m ≡ some e
  unfolding drop_some
  get-drop_some [] i m k e h = h
  get-drop_some (j ∷ ks) i m k e h =
      ground (arith, get-drop_some ks (i + 1) (del j m) k e, get-del j k m)

  get-make_room :
      (now : ℕ) (m : Cache) (k : CacheKey) (e : CacheEntry)
      → get k (make_room range now m) ≡ some e
      → get k m ≡ some e
  unfolding make_room drop_expired
  get-make_room now m k e h =
      let kept = retain (λ j v. ltb now v.expires) m in
      ground
        (arith, get-drop_some (range kept) 0 kept k e, get-retain (λ j v. ltb now v.expires) k m)

  -- A write adds its own entry and no other.
  pub get-cache_put :
      (j : CacheKey) (r : Result) (now stamp : ℕ) (m : Cache) (k : CacheKey) (e : CacheEntry)
      → get k (cache_put range j r now stamp m) ≡ some e
      → ((j ≡ k) × (e ≡ record { res = r; expires = stamp + cache_ttl }))
        ⊎ (((j == k) ≡ false) × (get k m ≡ some e))
  unfolding cache_put
  get-cache_put j r now stamp m k e h =
      let written =
        get-put j k (record { res = r; expires = stamp + cache_ttl }) (make_room range now m) in
      elim (Bool-cases (j == k)) [
        | inl same ↦ inl (ground (arith, eq_iff j k), ground (arith, written))
        | inr other ↦ inr (other, get-make_room now m k e (ground (arith, written)))
      ]

-- ===== src/Policy/Cache/Bound.antt =====
-- pkg/policy/cache.go: how large the map gets.
use outrelay_relay.Common.{
  refl, ℕ, some, [], ◌∷◌, List, get, length, Elem, ◌<◌, IsRange, ◌≤◌, arith, Bool-cases, leb,
  size-put-le, inl, retain, ltb, size-retain-le, inr, ◌+◌, ◌≡◌, del, eq_refl, size-del-le,
  size-del-lt,
}
use outrelay_relay.Policy.Rules.{Result}
use outrelay_relay.Policy.Cache.{
  CacheKey, CacheEntry, Cache, key_eq, cache_capacity, drop_some, drop_expired, make_room,
  cache_put, cache_ttl,
}

size-drop_some : (ks : List CacheKey) (i : ℕ) (m : Cache) → length (drop_some ks i m) ≤ length m
unfolding drop_some
size-drop_some [] i m = omega arith
size-drop_some (k ∷ ks) i m = ground (arith, size-drop_some ks (i + 1) (del k m), size-del-le k m)

size-drop_some-lt :
    (ks : List CacheKey) (i : ℕ) (m : Cache) (k : CacheKey)
    → Elem k ks
    → ((j : CacheKey) → Elem j ks → (e : CacheEntry) × (get j m ≡ some e))
    → length (drop_some ks i m) < length m
unfolding drop_some
size-drop_some-lt [] i m k h only = absurd h
size-drop_some-lt (j ∷ ks) i m k h only =
    let (e, q) = only j (inl refl) in
    ground (arith, size-drop_some ks (i + 1) (del j m), size-del-lt j e m q)

a_key : (m : Cache) → 0 < length m → (k : CacheKey) × (e : CacheEntry) × (get k m ≡ some e)
unfolding get
a_key [] h = absurd (omega arith)
a_key ((k, e) ∷ m) h = (k, e, ground (arith, eq_refl k))

module _ (range : Cache → List CacheKey) (any_order : IsRange range) where
  size-make_room :
      (now : ℕ) (m : Cache)
      → length m ≤ cache_capacity
      → length (make_room range now m) < cache_capacity
  unfolding make_room drop_expired
  size-make_room now m h = elim (Bool-cases (leb cache_capacity (length m))) [
    | inl full ↦
        let kept = retain (λ k v. ltb now v.expires) m in
        elim (Bool-cases (leb cache_capacity (length kept))) [
          | inl still ↦
              let (k, e, q) = a_key kept (ground arith) in
              ground (
                arith,
                size-retain-le (λ k v. ltb now v.expires) m,
                size-drop_some-lt (range kept) 0 kept k (any_order.visits kept k e q)
                    (any_order.only kept),
              )
          | inr freed ↦ ground arith
        ]
    | inr room ↦ ground arith
  ]

  -- A write keeps a cache that is within its capacity within it, whichever entries Go's map order
  -- evicts.
  pub cache_put-size :
      (k : CacheKey) (r : Result) (now stamp : ℕ) (m : Cache)
      → length m ≤ cache_capacity
      → length (cache_put range k r now stamp m) ≤ cache_capacity
  unfolding cache_put
  cache_put-size k r now stamp m h = ground (
    arith,
    size-make_room now m h,
    size-put-le k (record { res = r; expires = stamp + cache_ttl }) (make_room range now m),
  )

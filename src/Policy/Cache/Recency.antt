-- ===== src/Policy/Cache/Recency.antt =====
-- pkg/policy/cache.go: what an answer of the cache says of the calls before it.
use outrelay_relay.Common.{
  ℕ, none, some, [], ◌∷◌, ◌+◌, ◌≡◌, ◌<◌, List, Option, get, arith, inl, ltb, inr, if◌then◌else◌,
  ◌==◌, get-put, eq_iff,
}
use outrelay_relay.Policy.Rules.{Result}
use outrelay_relay.Policy.Cache.Entries.{get-cache_put, get-cache_get, hit-entry}
use outrelay_relay.Policy.Cache.{
  CacheKey, CacheEntry, Cache, key_eq, make_room, cache_put, cache_get, cache_flush, new_cache,
  cache_ttl,
}

pub data Call : Type 0 where
  put_call : CacheKey → Result → ℕ → ℕ → Call
  get_call : CacheKey → ℕ → Call
  flush_call : Call

-- The answer last written under a key since the last flush, with the clock reading of the write; the
-- newest call stands first.
unfoldable pub last_put : CacheKey → List Call → Option (Result × ℕ)
last_put k [] = none
last_put k (put_call j r now stamp ∷ calls) = if j == k then some (r, stamp) else last_put k calls
last_put k (get_call j now ∷ calls) = last_put k calls
last_put k (flush_call ∷ calls) = none

module _ (range : Cache → List CacheKey) where
  unfoldable pub perform : Call → Cache → Cache
  unfolding cache_put cache_get cache_flush
  perform (put_call k r now stamp) m = cache_put range k r now stamp m
  perform (get_call k now) m = (cache_get k now m).1
  perform flush_call m = cache_flush m

  unfoldable pub after : List Call → Cache
  unfolding new_cache
  after [] = new_cache
  after (c ∷ calls) = perform c (after calls)

  -- An entry of the map is the one last written under its key.
  pub entry-last_put :
      (calls : List Call) (k : CacheKey) (e : CacheEntry)
      → get k (after calls) ≡ some e
      → (stamp : ℕ) × (last_put k calls ≡ some (e.res, stamp)) × (e.expires ≡ stamp + cache_ttl)
  unfolding after perform last_put cache_flush new_cache get
  entry-last_put [] k e h = absurd (ground (arith, h))
  entry-last_put (put_call j r now stamp ∷ calls) k e h =
      elim (get-cache_put range j r now stamp (after calls) k e h) [
        | inl (same, written) ↦ (stamp, ground (arith, eq_iff j k), ground arith)
        | inr (other, old) ↦ let (t, p, q) = entry-last_put calls k e old in (t, ground arith, q)
      ]
  entry-last_put (get_call j now ∷ calls) k e h =
      entry-last_put calls k e (get-cache_get j now (after calls) k e h)
  entry-last_put (flush_call ∷ calls) k e h = absurd (ground (arith, h))

  -- Whatever was called before and whatever was evicted, an answer of the cache is the one last
  -- written under that key, with no flush since, and less than the time to live ago.
  pub hit_is_recent :
      (calls : List Call) (k : CacheKey) (now : ℕ) (r : Result)
      → (cache_get k now (after calls)).0 ≡ some r
      → (stamp : ℕ) × (last_put k calls ≡ some (r, stamp)) × (now < stamp + cache_ttl)
  hit_is_recent calls k now r h =
      let (e, found, answer, live) = hit-entry k now (after calls) r h in
      let (stamp, p, q) = entry-last_put calls k e found in (stamp, ground arith, ground arith)

  -- An answer that was just written is given for the whole of its time to live, and is gone after a
  -- flush.
  pub put_then_get :
      (k : CacheKey) (r : Result) (now stamp later : ℕ) (m : Cache)
      → ((cache_get k later (cache_put range k r now stamp m)).0
          ≡ (if ltb later (stamp + cache_ttl) then some r else none))
        × ((cache_get k later (cache_flush m)).0 ≡ none)
  unfolding cache_get cache_put cache_flush get
  put_then_get k r now stamp later m = ground (
    arith,
    eq_iff k k,
    get-put k k (record { res = r; expires = stamp + cache_ttl }) (make_room range now m),
  )

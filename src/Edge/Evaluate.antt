-- ===== src/Edge/Evaluate.antt =====
-- pkg/edge/edge.go: `evaluate`, the policy check of a stream. The cache is optional; `range` stands
-- for the order in which Go visits its map.
pub mod Current
use outrelay_relay.Common.{ℕ, none, some, List, Option}
use outrelay_relay.Policy.Rules.{Result}
use outrelay_relay.Policy.Engine.{Engine, engine_decide}
use outrelay_relay.Policy.Cache.{Cache, CacheKey, cache_get, cache_put}

-- The clock readings of one call: for the lookup, for the decision in milliseconds, for the eviction
-- and for the entry that is written.
pub record Clock : Type 0 where
  pub look : ℕ
  pub decide_ms : ℕ
  pub evict : ℕ
  pub stamp : ℕ

abbrev pub decide_at : Engine → CacheKey → Clock → Result
decide_at e k c = engine_decide e k.caller k.target k.method c.decide_ms

module _ (range : Cache → List CacheKey) where
  unfoldable pub on_miss : Engine → Cache → CacheKey → Clock → Result × Cache
  on_miss e m k c = let r = decide_at e k c in (r, cache_put range k r c.evict c.stamp m)

  unfoldable pub on_lookup : Engine → CacheKey → Clock → Option Result × Cache → Result × Cache
  unfolding on_miss
  on_lookup e k c (none, m) = on_miss e m k c
  on_lookup e k c (some r, m) = (r, m)

  unfoldable pub evaluate : Engine → Option Cache → CacheKey → Clock → Result × Option Cache
  unfolding on_lookup
  evaluate e none k c = (decide_at e k c, none)
  evaluate e (some m) k c = let (r, kept) = on_lookup e k c (cache_get k c.look m) in (r, some kept)

-- ===== src/Policy/Cache.antt =====
-- pkg/policy/cache.go: the decision cache. Clock readings are arguments, in nanoseconds; `range`
-- stands for the order in which Go visits the map.
pub mod Entries
pub mod Bound
pub mod Recency
use outrelay_relay.Common.{
  none, some, ℕ, ◌*◌, Bytes, Bool, ◌≡◌, Eq, Dict, [], Option, List, retain, length, ◌==◌, true, get,
  ◌∷◌, ltb, if◌then◌else◌, put, ◌&&◌, ◌↔◌, ◌+◌, leb, arith, del, bytes_eq, eq_iff, not,
}
use outrelay_relay.Policy.Rules.{Result}

abbrev second : ℕ
second = 1_000_000_000

abbrev pub cache_ttl : ℕ
cache_ttl = 5 * second

abbrev pub cache_capacity : ℕ
cache_capacity = 65_536

-- `CacheCapacity/8`
abbrev pub eviction_share : ℕ
eviction_share = 8_192

pub record CacheKey : Type 0 where
  pub caller : Bytes
  pub target : Bytes
  pub method : Bytes

unfoldable pub key_beq : CacheKey → CacheKey → Bool
key_beq a b = a.caller == b.caller && a.target == b.target && a.method == b.method

pub key_beq_iff : (a b : CacheKey) → (key_beq a b ≡ true) ↔ (a ≡ b)
unfolding key_beq
key_beq_iff a b =
    ground (arith, eq_iff a.caller b.caller, eq_iff a.target b.target, eq_iff a.method b.method)

instance abbrev pub key_eq : Eq CacheKey
key_eq = record { same_iff = key_beq_iff; same = key_beq }

pub record CacheEntry : Type 0 where
  pub res : Result
  pub expires : ℕ

abbrev pub Cache : Type 0
Cache = Dict CacheKey CacheEntry

unfoldable pub new_cache : Cache
new_cache = []

-- `Get`: the answer, and the map after the delete of an expired entry.
unfoldable pub cache_get : CacheKey → ℕ → Cache → Option Result × Cache
cache_get k now m = elim (get k m) [
  | none ↦ (none, m)
  | some e ↦ if not (ltb now e.expires) then (none, del k m) else (some e.res, m)
]

-- `for k := range c.m { delete(c.m, k); i++; if i >= CacheCapacity/8 { break } }`
unfoldable pub drop_some : List CacheKey → ℕ → Cache → Cache
drop_some [] i m = m
drop_some (k ∷ ks) i m =
    let rest = drop_some ks (i + 1) (del k m) in
    if leb eviction_share (i + 1) then del k m else rest

unfoldable pub drop_expired : ℕ → Cache → Cache
drop_expired now m = retain (λ k v. ltb now v.expires) m

unfoldable pub cache_flush : Cache → Cache
cache_flush m = []

unfoldable pub cache_len : Cache → ℕ
cache_len m = length m

module _ (range : Cache → List CacheKey) where
  unfoldable pub make_room : ℕ → Cache → Cache
  unfolding drop_some drop_expired
  make_room now m =
      if leb cache_capacity (length m)
      then (let kept = drop_expired now m in
          if leb cache_capacity (length kept) then drop_some (range kept) 0 kept else kept)
      else m

  -- `Put`; the clock is read for the eviction and again for the entry.
  unfoldable pub cache_put : CacheKey → Result → ℕ → ℕ → Cache → Cache
  unfolding make_room
  cache_put k r now stamp m =
      put k (record { res = r; expires = stamp + cache_ttl }) (make_room now m)

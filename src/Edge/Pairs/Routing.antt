-- ===== src/Edge/Pairs/Routing.antt =====
-- pkg/edge/edge.go: which agent a frame reaches.
use outrelay_relay.Common.{
  ℕ, none, some, [], ◌≡◌, ◌≢◌, arith, true, false, get, Bytes, ◌↔◌, eq_refl, get-del, eq_iff, put,
  if◌then◌else◌, nat_eq, bytes_eq, ◌&&◌, ◌==◌, Option-cases, inl, inr, get-put, ◌⊎◌, Bool-cases,
}
use outrelay_relay.Registry.{Registry, lookup_agent}
use outrelay_relay.Edge.Pairs.{
  StreamPair, pair_beq, Pairs, collides, record_pair, replace_pair, forget_pair, other_side,
  peer_of, route,
}

pair_beq_iff : (a b : StreamPair) → (pair_beq a b ≡ true) ↔ (a ≡ b)
unfolding pair_beq
pair_beq_iff a b =
    ground (arith, eq_iff a.consumer_uri b.consumer_uri, eq_iff a.provider_uri b.provider_uri)

-- A stream id other than 0 is refused exactly where another pair stands under it, which then
-- stays; an accepted id has the pair, and no other id changes.
pub record_pair_lem :
    (id : ℕ) (p : StreamPair) (pairs : Pairs)
    → id ≢ 0
    → (((record_pair id p pairs).0 ≡ false)
        ↔ ((q : StreamPair) × (get id pairs ≡ some q) × (q ≢ p)))
      × ((j : ℕ)
          → get j (record_pair id p pairs).1
            ≡ (if (record_pair id p pairs).0 && id == j then some p else get j pairs))
unfolding record_pair collides
record_pair_lem id p pairs named = (
  (refused, λ (q, found, other). ground (arith, pair_beq_iff q p)),
  λ j. ground (arith, get-put id j p pairs),
)
  where
    refused :
        (record_pair id p pairs).0 ≡ false → (q : StreamPair) × (get id pairs ≡ some q) × (q ≢ p)
    refused h = elim (Option-cases (get id pairs)) [
      | inl missing ↦ absurd (ground arith)
      | inr (q, found) ↦ (q, found, λ same. ground (arith, pair_beq_iff q p))
    ]

route-unknown :
    (id : ℕ) (from : Bytes) (pairs : Pairs) (reg : Registry)
    → peer_of id from pairs ≡ []
    → route id from pairs reg ≡ none
unfolding route
route-unknown id from pairs reg h = ground (arith, eq_iff (peer_of id from pairs) [])

-- For a recorded pair of two names that are not empty, a frame of either agent goes to the
-- connection of the other one, and a frame of any other agent goes nowhere.
pub route_lem :
    (id : ℕ) (p : StreamPair) (pairs : Pairs) (reg : Registry)
    → get id pairs ≡ some p
    → p.consumer_uri ≢ []
    → p.provider_uri ≢ []
    → (route id p.consumer_uri pairs reg ≡ lookup_agent p.provider_uri reg)
      × (route id p.provider_uri pairs reg ≡ lookup_agent p.consumer_uri reg)
      × ((from : Bytes)
          → (from ≡ p.consumer_uri) ⊎ ((from ≡ p.provider_uri) ⊎ (route id from pairs reg ≡ none)))
unfolding route peer_of other_side
route_lem id p pairs reg found consumer provider = (
  ground (arith, eq_refl p.consumer_uri, eq_iff p.provider_uri []),
  ground (
    arith,
    eq_refl p.provider_uri,
    eq_iff p.provider_uri p.consumer_uri,
    eq_iff p.consumer_uri [],
    eq_iff p.provider_uri [],
  ),
  λ from. elim (Bool-cases (from == p.consumer_uri)) [
    | inl consumes ↦ inl ((eq_iff from p.consumer_uri).0 consumes)
    | inr other ↦ elim (Bool-cases (from == p.provider_uri)) [
      | inl provides ↦ inr (inl ((eq_iff from p.provider_uri).0 provides))
      | inr neither ↦ inr (inr (route-unknown id from pairs reg (ground arith)))
    ]
  ],
)

-- When a resumed stream has replaced the pair of its id, which is not 0, and the former splice
-- under that id ends afterwards, no frame of the resumed stream is routed any more.
pub late_forget_unroutes :
    (id : ℕ) (p : StreamPair) (pairs : Pairs) (reg : Registry) (from : Bytes)
    → id ≢ 0
    → route id from (forget_pair id (replace_pair id p pairs)) reg ≡ none
unfolding route peer_of forget_pair replace_pair
late_forget_unroutes id p pairs reg from named =
    route-unknown id from (forget_pair id (replace_pair id p pairs)) reg
      (ground (arith, get-del id id (put id p pairs), eq_refl id))

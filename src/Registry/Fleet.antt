-- ===== src/Registry/Fleet.antt =====
-- pkg/registry/fleet.go: the successor list and the heartbeat. `sort` stands for `slices.SortFunc` by
-- id, whose documented behaviour that is used is `IsSort`.
use Prim.Native.Nat.{Ordering}
use outrelay_relay.Text.{bytes_ltb}
use outrelay_relay.Common.{
  ℕ, none, some, [], ◌∷◌, Bytes, List, ◌++◌, if◌then◌else◌, Elem, Bool, Option, ◌==◌, ◌↔◌, true,
  ◌||◌, ◌&&◌, false, bytes_eq, nat_eq,
}

-- 30 seconds, in nanoseconds.
abbrev pub default_heartbeat_period : ℕ
default_heartbeat_period = 30_000_000_000

pub record RelayInstance : Type 0 where
  pub id : Bytes
  pub region : Bytes
  pub endpoint : Bytes

-- The loop of `Successors`: the relays of the region, and the other ones.
unfoldable pub split_fleet :
    Bytes → Bytes → List RelayInstance → List RelayInstance × List RelayInstance
split_fleet self_id region [] = ([], [])
split_fleet self_id region (r ∷ fleet) =
    let (same, other) = split_fleet self_id region fleet in
    if r.id == self_id || r.endpoint == []
    then (same, other)
    else if r.region == region
    then (r ∷ same, other)
    else (same, r ∷ other)

unfoldable pub endpoints : List RelayInstance → List Bytes
endpoints [] = []
endpoints (r ∷ rs) = r.endpoint ∷ endpoints rs

-- `byID`
unfoldable pub by_id : RelayInstance → RelayInstance → Ordering
by_id a b =
    if bytes_ltb a.id b.id
    then Ordering.lt
    else if bytes_ltb b.id a.id
    then Ordering.gt
    else Ordering.eq

-- A sort loses no element and adds none.
abbrev pub IsSort : (List RelayInstance → List RelayInstance) → Type 0
IsSort sort = (rs : List RelayInstance) (r : RelayInstance) → Elem r (sort rs) ↔ Elem r rs

unfoldable pub lists_equal : List Bytes → List Bytes → Bool
lists_equal [] [] = true
lists_equal (a ∷ s) (b ∷ t) = a == b && lists_equal s t
lists_equal _ _ = false

pub record Heartbeat : Type 0 where
  pub id : Bytes
  pub region : Bytes
  pub endpoint : Bytes
  pub period : ℕ
  pub last : List Bytes
  pub subs : List ℕ

-- A period that is not positive is 0.
unfoldable pub new_heartbeat : Bytes → Bytes → Bytes → ℕ → Heartbeat
new_heartbeat id region endpoint period = record {
  id = id;
  region = region;
  endpoint = endpoint;
  period = if period == 0 then default_heartbeat_period else period;
  last = [];
  subs = [];
}

-- `OnSuccessors`: a subscriber is a number here.
unfoldable pub on_successors : ℕ → Heartbeat → Heartbeat
on_successors s h = record h { subs = h.subs ++ s ∷ [] }

-- `for _, fn := range subs { fn(slices.Clone(next)) }`
unfoldable pub call_all : List ℕ → List Bytes → List (ℕ × List Bytes)
call_all [] next = []
call_all (s ∷ subs) next = (s, next) ∷ call_all subs next

module _ (sort : List RelayInstance → List RelayInstance) where
  unfoldable pub successors : Bytes → Bytes → List RelayInstance → List Bytes
  unfolding split_fleet endpoints
  successors self_id region fleet =
      let (same, other) = split_fleet self_id region fleet in
      endpoints (sort same) ++ endpoints (sort other)

  -- The answer of `UpsertRelay` is `none` where the call failed. The result has the calls of the
  -- subscribers, in their order.
  unfoldable pub beat : Option (List RelayInstance) → Heartbeat → Heartbeat × List (ℕ × List Bytes)
  unfolding call_all
  beat none h = (h, [])
  beat (some relays) h =
      let next = successors h.id h.region relays in
      if lists_equal next h.last then (h, []) else (record h { last = next }, call_all h.subs next)

  -- `Run`, over the answers of its beats.
  unfoldable pub run :
      List (Option (List RelayInstance)) → Heartbeat → Heartbeat × List (ℕ × List Bytes)
  unfolding beat
  run [] h = (h, [])
  run (answer ∷ answers) h =
      let (next, calls) = beat answer h in
      let (last, more) = run answers next in (last, calls ++ more)

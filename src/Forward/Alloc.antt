-- ===== src/Forward/Alloc.antt =====
-- pkg/forward/plane.go: `Allocate`, `Forget`, `ForgetAgent` and the idle collector. The plane's
-- lock makes each call one step.
use outrelay_relay.Common.{
  ℕ, zero, suc, ◌+◌, ◌-◌, ◌/◌, ◌%◌, ◌^◌, ◌*◌, Bool, not, Option, none, some, List, [], ◌∷◌, ltb,
  if◌then◌else◌, length, ◌==◌, nat_eq, bytes_eq, Bytes, Dict, get, del, put, retain, entries,
}
use outrelay_relay.Forward.State.{unset, addr_eq, second, AllocEntry, IdSet, Plane}

abbrev pub u32_mod : ℕ
u32_mod = 2 ^ 32

-- The loop of `Allocate` over the atomic counter; `none` means that the fuel ran out.
unfoldable pub next_nonzero : ℕ → ℕ → Option ℕ
next_nonzero zero n = none
next_nonzero (suc fuel) n =
    let id = (n + 1) % u32_mod in
    let again = next_nonzero fuel id in if id == 0 then again else some id

unfoldable pub insert_id : Bytes → ℕ → Dict Bytes IdSet → Dict Bytes IdSet
insert_id uri id m = elim (get uri m) [
  | none ↦ put uri (put id tt []) m
  | some set ↦ put uri (put id tt set) m
]

pub data Allocation : Type 0 where
  panicked : Allocation
  out_of_fuel : Allocation
  granted : ℕ → Plane → Allocation

unfoldable pub issue : Bytes → ℕ → Option ℕ → Plane → Allocation
unfolding insert_id
issue uri now none p = out_of_fuel
issue uri now (some id) p = granted id (record p {
  by_alloc = put id (record { uri = uri; src = unset; last_seen = now }) p.by_alloc;
  by_uri = insert_id uri id p.by_uri;
  next_id = id;
})

unfoldable pub allocate : Bytes → ℕ → Plane → Allocation
unfolding issue next_nonzero
allocate uri now p = if uri == [] then panicked else issue uri now (next_nonzero 2 p.next_id) p

unfoldable pub remove_id : Bytes → ℕ → Dict Bytes IdSet → Dict Bytes IdSet
remove_id uri id m = elim (get uri m) [
  | none ↦ m
  | some set ↦ if length (del id set) == 0 then del uri m else put uri (del id set) m
]

-- What `Forget` and `gcOnce` do with an entry that goes.
unfoldable pub drop_entry : ℕ → AllocEntry → Plane → Plane
unfolding remove_id
drop_entry id entry p = record p {
  by_alloc = del id p.by_alloc;
  by_uri = remove_id entry.uri id p.by_uri;
  src2id = del entry.src p.src2id;
  pending = del id p.pending;
  queued = del id p.queued;
}

unfoldable pub forget_entry : ℕ → Option AllocEntry → Plane → Plane
forget_entry id none p = record p { pending = del id p.pending; queued = del id p.queued }
forget_entry id (some entry) p = drop_entry id entry p

unfoldable pub forget : ℕ → Plane → Plane
unfolding forget_entry drop_entry
forget id p = forget_entry id (get id p.by_alloc) p

unfoldable pub release_entry : ℕ → Option AllocEntry → Plane × ℕ → Plane × ℕ
release_entry id none (p, released) = (p, released)
release_entry id (some entry) (p, released) = (
  record p {
    by_alloc = del id p.by_alloc;
    src2id = del entry.src p.src2id;
    pending = del id p.pending;
    queued = del id p.queued;
  },
  released + 1,
)

-- The loop of `ForgetAgent` over the agent's set of ids.
unfoldable pub release_all : List (ℕ × Unit {0}) → Plane × ℕ → Plane × ℕ
release_all [] s = s
release_all ((id, _) ∷ ids) s = release_all ids (release_entry id (get id s.0.by_alloc) s)

unfoldable pub forget_set : Bytes → Option IdSet → Plane → Plane × ℕ
forget_set uri none p = (p, 0)
forget_set uri (some set) p =
    let (q, released) = release_all (entries set) (p, 0) in
    (record q { by_uri = del uri q.by_uri }, released)

unfoldable pub forget_agent : Bytes → Plane → Plane × ℕ
unfolding forget_set release_all release_entry
forget_agent uri p = if uri == [] then (p, 0) else forget_set uri (get uri p.by_uri) p

unfoldable pub is_idle : ℕ → ℕ → AllocEntry → Bool
is_idle idle_ttl now entry = ltb entry.last_seen (now - idle_ttl)

-- The first loop of `gcOnce`, over the allocations that stood at its start.
unfoldable pub evict_idle : ℕ → List (ℕ × AllocEntry) → Plane → Plane
unfolding is_idle drop_entry
evict_idle now [] p = p
evict_idle now ((id, entry) ∷ es) p =
    evict_idle now es (if is_idle p.idle_ttl now entry then drop_entry id entry p else p)

unfoldable pub sweep_expired : ℕ → Plane → Plane
sweep_expired now p = record p {
  pending = retain (λ id pend. not (ltb pend.expires now)) p.pending;
  queued = retain (λ id q. not (ltb q.expires now)) p.queued;
}

unfoldable pub gc_once : ℕ → Plane → Plane
unfolding evict_idle sweep_expired
gc_once now p = sweep_expired now (evict_idle now (entries p.by_alloc) p)

-- `max` and then `min`, in the order of `gcLoop`.
unfoldable pub gc_interval : ℕ → ℕ
gc_interval idle_ttl =
    let quarter = idle_ttl / 4 in
    let interval = if ltb quarter second then second else quarter in
    if ltb (5 * second) interval then 5 * second else interval

-- The plane that a call of `Allocate` leaves.
abbrev pub issued : Plane → Allocation → Plane
issued p (granted id q) = q
issued p _ = p

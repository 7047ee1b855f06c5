-- ===== src/Edge/Migrated.antt =====
-- pkg/edge/migrate.go: the streams that have left for a direct path, for as long as they may come
-- back. Clock readings are arguments, in nanoseconds.
use outrelay_relay.Common.{
  ℕ, none, some, arith, ◌≡◌, ◌≤◌, Bytes, Dict, retain, put, Option, del, length, get, if◌then◌else◌,
  not, leb, get-retain, ◌==◌, nat_eq, ◌-◌, get-put, get-del, eq_refl,
}

abbrev pub migration_ttl : ℕ
migration_ttl = 60_000_000_000

pub record MigratedStream : Type 0 where
  pub id : ℕ
  pub consumer_uri : Bytes
  pub provider_uri : Bytes
  pub migrated_at : ℕ

abbrev pub MigratedLru : Type 0
MigratedLru = Dict ℕ MigratedStream

unfoldable pub gc_locked : ℕ → MigratedLru → MigratedLru
gc_locked now m = retain (λ k v. not (leb migration_ttl (now - v.migrated_at))) m

-- `Note`; the clock is read for the entry and again for the sweep.
unfoldable pub note : MigratedStream → ℕ → ℕ → MigratedLru → MigratedLru
unfolding gc_locked
note s stamp now m = gc_locked now (put s.id (record s { migrated_at = stamp }) m)

-- `Lookup`: the entry, and the table after the delete of an expired one.
unfoldable pub lookup_migrated : ℕ → ℕ → MigratedLru → Option MigratedStream × MigratedLru
lookup_migrated id now m = elim (get id m) [
  | none ↦ (none, m)
  | some e ↦ if leb migration_ttl (now - e.migrated_at) then (none, del id m) else (some e, m)
]

unfoldable pub discard : ℕ → MigratedLru → MigratedLru
discard id m = del id m

-- `Len`, with the table after its sweep.
unfoldable pub lru_len : ℕ → MigratedLru → ℕ × MigratedLru
unfolding gc_locked
lru_len now m = let kept = gc_locked now m in (length kept, kept)

-- What `Lookup` gives of an entry.
abbrev live : ℕ → Option MigratedStream → Option MigratedStream
live now none = none
live now (some e) = if leb migration_ttl (now - e.migrated_at) then none else some e

lookup-live : (id now : ℕ) (m : MigratedLru) → (lookup_migrated id now m).0 ≡ live now (get id m)
unfolding lookup_migrated
lookup-live id now m = ground arith

live-gc :
    (id now later : ℕ) (m : MigratedLru)
    → now ≤ later
    → live later (get id (gc_locked now m)) ≡ live later (get id m)
unfolding gc_locked
live-gc id now later m h =
    ground (arith, get-retain (λ k v. not (leb migration_ttl (now - v.migrated_at))) id m)

-- No sweep is seen: after a note, a lookup that is not earlier than its sweep gives the noted
-- stream with the time of the note for as long as its time to live, and of any other id what it
-- gave before; a discarded id gives nothing.
pub lookup-note :
    (s : MigratedStream) (id stamp now later : ℕ) (m : MigratedLru)
    → now ≤ later
    → ((lookup_migrated id later (note s stamp now m)).0 ≡ (
        if s.id == id
        then live later (some (record s { migrated_at = stamp }))
        else (lookup_migrated id later m).0))
      × ((lookup_migrated id later (discard id m)).0 ≡ none)
unfolding note discard
lookup-note s id stamp now later m h = (
  ground (
    arith,
    lookup-live id later m,
    lookup-live id later (gc_locked now (put s.id (record s { migrated_at = stamp }) m)),
    live-gc id now later (put s.id (record s { migrated_at = stamp }) m),
    get-put s.id id (record s { migrated_at = stamp }) m,
  ),
  ground (arith, lookup-live id later (del id m), get-del id id m, eq_refl id),
)

-- ===== src/Forward/Expiry.antt =====
-- `gcOnce`: which entries go.
use outrelay_relay.Common.{
  ℕ, ◌-◌, ◌≡◌, Dict, Option, if◌then◌else◌, get, arith, some, Bool, ◌&&◌, Distinct, none, false,
  if_cases, ◌==◌, get-empty, get-del, ◌∷◌, kept, not, ltb, entries, retain, Distinct-entries,
  get-retain, get-entries, nat_eq, refl, [],
}
use outrelay_relay.Forward.Alloc
use outrelay_relay.Forward.State.{AllocEntry, Plane, PendingEntry, QueuedPunch}
use outrelay_relay.Forward.Index.{Inv, drop_entry-Inv, pending-Inv, queued-Inv}

-- The rows still to be visited are distinct, and stand in the table.
abbrev Within : Dict ℕ AllocEntry → Plane → Type 0
Within es p = (i : ℕ) (entry : AllocEntry) → get i es ≡ some entry → get i p.by_alloc ≡ some entry

abbrev gone_if_idle : ℕ → ℕ → Option AllocEntry → Bool
gone_if_idle ttl now none = false
gone_if_idle ttl now (some entry) = Alloc.is_idle ttl now entry

-- One turn of the loop.
visit : ℕ → ℕ → AllocEntry → Plane → Plane
visit now id entry p = if Alloc.is_idle p.idle_ttl now entry then Alloc.drop_entry id entry p else p

module _ (now : ℕ) (id : ℕ) (entry : AllocEntry) (p : Plane) where
  visit-Inv : Inv p → get id p.by_alloc ≡ some entry → Inv (visit now id entry p)
  unfolding visit
  visit-Inv v e =
      if_cases Inv (Alloc.is_idle p.idle_ttl now entry) _ _ (λ _. drop_entry-Inv p v id 0 entry e)
        (λ _. v)

  visit_ttl : (visit now id entry p).idle_ttl ≡ p.idle_ttl
  unfolding visit Alloc.drop_entry
  visit_ttl = ground arith

  get-visit :
      (i : ℕ)
      → get i (visit now id entry p).by_alloc
        ≡ (if Alloc.is_idle p.idle_ttl now entry && id == i then none else get i p.by_alloc)
  unfolding visit Alloc.drop_entry
  get-visit i = ground (arith, get-del id i p.by_alloc)

get_head :
    (id : ℕ) (entry : AllocEntry) (es : Dict ℕ AllocEntry) (i : ℕ)
    → get i ((id, entry) ∷ es) ≡ (if id == i then some entry else get i es)
unfolding get
get_head id entry es i = refl

evict_idle-Inv :
    (now : ℕ) (es : Dict ℕ AllocEntry) (p : Plane)
    → Inv p
    → Distinct es
    → Within es p
    → Inv (Alloc.evict_idle now es p)
unfolding Alloc.evict_idle visit
evict_idle-Inv now [] p v d w = v
evict_idle-Inv now ((id, entry) ∷ es) p v d w =
    evict_idle-Inv now es (visit now id entry p)
      (visit-Inv now id entry p v (w id entry (ground (arith, get_head id entry es id)))) d.1
      λ i en h. ground (arith, get-visit now id entry p i, w i en, get_head id entry es i, d.0)

evict_idle_step :
    (now id : ℕ) (entry : AllocEntry) (es : Dict ℕ AllocEntry) (p : Plane)
    → Alloc.evict_idle now ((id, entry) ∷ es) p ≡ Alloc.evict_idle now es (visit now id entry p)
unfolding Alloc.evict_idle visit
evict_idle_step now id entry es p = refl

get-evict_idle :
    (now : ℕ) (es : Dict ℕ AllocEntry) (p : Plane) (i : ℕ)
    → Distinct es
    → get i (Alloc.evict_idle now es p).by_alloc
      ≡ (if gone_if_idle p.idle_ttl now (get i es) then none else get i p.by_alloc)
get-evict_idle now [] p i d =
    unfold Alloc.evict_idle in ground (arith, get-empty {V = AllocEntry} i)
get-evict_idle now ((id, entry) ∷ es) p i d = rw evict_idle_step (
    ground (
      arith,
      get-evict_idle now es (visit now id entry p) i d.1,
      d.0,
      visit_ttl now id entry p,
      get-visit now id entry p i,
      get_head id entry es i,
    ))

sweep_expired-Inv : (now : ℕ) (p : Plane) → Inv p → Inv (Alloc.sweep_expired now p)
unfolding Alloc.sweep_expired
sweep_expired-Inv now p v =
    let live = λ (i : ℕ) (pend : PendingEntry). not (ltb pend.expires now) in
    let waiting = λ (i : ℕ) (q : QueuedPunch). not (ltb q.expires now) in
    queued-Inv _
      (pending-Inv p v (retain live p.pending)
        λ i pend e. ground (arith, get-retain live i p.pending, v.armed i pend))
      (retain waiting p.queued)
      λ i q e. ground (arith, get-retain waiting i p.queued, v.queue_known i q)

-- On tables that agree, gcOnce releases exactly the allocations not seen within the idle window,
-- leaves every other one as it was, and keeps the tables in agreement.
pub gc_once_lem :
    (p : Plane) (now : ℕ)
    → Inv p
    → Inv (Alloc.gc_once now p)
      × ((id : ℕ)
          → get id (Alloc.gc_once now p).by_alloc
            ≡ kept (λ _ entry. not (ltb entry.last_seen (now - p.idle_ttl))) id (get id p.by_alloc))
unfolding Alloc.gc_once Alloc.sweep_expired Alloc.is_idle
gc_once_lem p now v = (
  sweep_expired-Inv now _ (
      evict_idle-Inv now (entries p.by_alloc) p v (Distinct-entries p.by_alloc)
        λ i en h. ground (arith, get-entries i p.by_alloc)),
  λ id. ground (
    arith,
    get-evict_idle now (entries p.by_alloc) p id (Distinct-entries p.by_alloc),
    get-entries id p.by_alloc,
  ),
)

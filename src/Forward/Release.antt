-- ===== src/Forward/Release.antt =====
-- `Allocate`, `ForgetAgent` and `gcOnce`: what they issue and release, and that the tables agree.
use outrelay_relay.Forward.Alloc
use outrelay_relay.Forward.Alloc.{granted, panicked, out_of_fuel, u32_mod}
use outrelay_relay.Common.{
  ℕ, ◌+◌, ◌<◌, ◌%◌, true, false, Option, none, some, [], ◌∷◌, ◌≡◌, ◌≢◌, refl, ap, ◌∙◌, arith,
  if◌then◌else◌, ◌==◌, inl, inr, Bool-cases, if_cases, eq_iff, eq_refl, nat_eq, bytes_eq, Bytes,
  Dict, get, del, put, entries, get-empty, get-del, get-put, get-entries,
}
use outrelay_relay.Forward.State.{unset, addr_eq, AllocEntry, IdSet, Plane}
use outrelay_relay.Forward.Views.{owned_by, has, listed-insert_id}
use outrelay_relay.Forward.Index.{Inv, drop_entry-Inv}

-- The counter skips 0, the id that the wire reserves, and then grows by one until it wraps.
pub next_nonzero_grows : (n : ℕ) → n + 1 < u32_mod → Alloc.next_nonzero 2 n ≡ some (n + 1)
unfolding Alloc.next_nonzero
next_nonzero_grows n h = ground arith

-- From any value of the counter, two turns of the loop of Allocate are enough to reach an id,
-- which is above 0 and fits 32 bits.
pub next_nonzero_total :
    (n : ℕ) → (id : ℕ) × (Alloc.next_nonzero 2 n ≡ some id) × (0 < id) × (id < u32_mod)
unfolding Alloc.next_nonzero
next_nonzero_total n = elim (Bool-cases ((n + 1) % u32_mod == 0)) [
  | inl wraps ↦ ((((n + 1) % u32_mod) + 1) % u32_mod, ground arith, ground arith, ground arith)
  | inr plain ↦ ((n + 1) % u32_mod, ground arith, ground arith, ground arith)
]

module _ (p : Plane) (v : Inv p) (uri : Bytes) (now : ℕ) where
  pub issue-Inv :
      (id : ℕ)
      → p.next_id < id
      → Inv (record p {
        by_alloc = put id (record { uri = uri; src = unset; last_seen = now }) p.by_alloc;
        by_uri = Alloc.insert_id uri id p.by_uri;
        next_id = id;
      })
  issue-Inv id h =
      let entry : AllocEntry = record { uri = uri; src = unset; last_seen = now } in
      record {
        indexed = λ u i. ground (
          arith,
          get-put id i entry p.by_alloc,
          listed-insert_id uri u id i p.by_uri,
          v.indexed u i,
          eq_iff uri u,
          v.fresh id,
        );
        fresh = λ i lt. ground (arith, get-put id i entry p.by_alloc, v.fresh i);
        reserved = ground (arith, get-put id 0 entry p.by_alloc, v.reserved);
        reversed =
            λ s i e. ground (arith, get-put id i entry p.by_alloc, v.reversed s i, v.fresh id);
        armed =
            λ i pend e. ground (arith, get-put id i entry p.by_alloc, v.armed i pend, v.fresh id);
        src_known = v.src_known;
        queue_known = v.queue_known;
      }

drop_found : ℕ → Option AllocEntry → Plane → Plane
unfolding Alloc.drop_entry
drop_found id none p = p
drop_found id (some entry) p = Alloc.drop_entry id entry p

-- The loop of `ForgetAgent`, as drops of whole entries.
drop_all : IdSet → Plane → Plane
drop_all [] p = p
drop_all ((id, _) ∷ ids) p = drop_all ids (drop_found id (get id p.by_alloc) p)

drop_found-Inv :
    (id : ℕ) (found : Option AllocEntry) (p : Plane)
    → Inv p
    → get id p.by_alloc ≡ found
    → Inv (drop_found id found p)
unfolding drop_found
drop_found-Inv id none p v e = v
drop_found-Inv id (some entry) p v e = drop_entry-Inv p v id 0 entry e

drop_all-Inv : (ids : IdSet) (p : Plane) → Inv p → Inv (drop_all ids p)
unfolding drop_all
drop_all-Inv [] p v = v
drop_all-Inv ((id, t) ∷ ids) p v =
    drop_all-Inv ids _ (drop_found-Inv id (get id p.by_alloc) p v refl)

has-cons :
    (id i : ℕ) (t : Unit {0}) (ids : IdSet)
    → has i (some ((id, t) ∷ ids)) ≡ (if id == i then true else has i (some ids))
unfolding get
has-cons id i t ids = ground arith

get-drop_found :
    (id i : ℕ) (found : Option AllocEntry) (p : Plane)
    → get id p.by_alloc ≡ found
    → get i (drop_found id found p).by_alloc ≡ (if id == i then none else get i p.by_alloc)
unfolding drop_found
get-drop_found id i none p e = ground arith
get-drop_found id i (some entry) p e = get-del id i p.by_alloc

get-drop_all :
    (ids : IdSet) (p : Plane) (i : ℕ)
    → get i (drop_all ids p).by_alloc ≡ (if has i (some ids) then none else get i p.by_alloc)
unfolding drop_all
get-drop_all [] p i = ground (arith, get-empty {V = Unit {0}} i)
get-drop_all ((id, t) ∷ ids) p i = ground (
  arith,
  has-cons id i t ids,
  get-drop_all ids (drop_found id (get id p.by_alloc) p) i,
  get-drop_found id i (get id p.by_alloc) p refl,
)

release_entry-drop_found :
    (id : ℕ) (found : Option AllocEntry) (p : Plane) (m : Dict Bytes IdSet) (n : ℕ)
    → (k : ℕ) × (Alloc.release_entry id found (record p { by_uri = m }, n)
        ≡ (record (drop_found id found p) { by_uri = m }, k))
unfolding drop_found Alloc.release_entry
release_entry-drop_found id none p m n = (n, refl)
release_entry-drop_found id (some entry) p m n = (n + 1, refl)

release_all-drop_all :
    (ids : IdSet) (p : Plane) (m : Dict Bytes IdSet) (n : ℕ)
    → (Alloc.release_all ids (record p { by_uri = m }, n)).0
      ≡ record (drop_all ids p) { by_uri = m }
unfolding drop_all Alloc.release_all
release_all-drop_all [] p m n = refl
release_all-drop_all ((id, t) ∷ ids) p m n =
    let (k, e) = release_entry-drop_found id (get id p.by_alloc) p m n in
    ap (λ s. (Alloc.release_all ids s).0) e
    ∙ release_all-drop_all ids (drop_found id (get id p.by_alloc) p) m k

owner_unique :
    (uri u : Bytes) (found : Option AllocEntry)
    → (uri == u) ≡ false
    → owned_by uri found ≡ true
    → owned_by u found ≡ false
owner_unique uri u none ne own = refl
owner_unique uri u (some entry) ne own =
    ground (arith, eq_iff entry.uri uri, eq_iff entry.uri u, eq_iff uri u)

has-entries : (i : ℕ) (set : IdSet) → has i (some (entries set)) ≡ has i (some set)
has-entries i set = ground (arith, get-entries i set)

module _ (p : Plane) (v : Inv p) (uri : Bytes) (set : IdSet) (e : get uri p.by_uri ≡ some set) where
  owned_iff_has : (i : ℕ) → has i (some (entries set)) ≡ owned_by uri (get i p.by_alloc)
  owned_iff_has i = ground (arith, v.indexed uri i, has-entries i set)

  forget_set-eq :
      (Alloc.forget_set uri (some set) p).0
      ≡ record (drop_all (entries set) p) { by_uri = del uri p.by_uri }
  unfolding Alloc.forget_set
  forget_set-eq = ground (arith, release_all-drop_all (entries set) p p.by_uri 0)

  forget_set-Inv : Inv (Alloc.forget_set uri (some set) p).0
  forget_set-Inv =
      let dropped = drop_all-Inv (entries set) p v in
      rw forget_set-eq (record {
        indexed = λ u i. ground (
          arith,
          dropped.indexed u i,
          get-drop_all (entries set) p i,
          get-del uri u p.by_uri,
          owned_iff_has i,
          v.indexed u i,
          owner_unique uri u (get i p.by_alloc),
          eq_iff uri u,
        );
        fresh = dropped.fresh;
        reserved = dropped.reserved;
        reversed = dropped.reversed;
        armed = dropped.armed;
        src_known = dropped.src_known;
        queue_known = dropped.queue_known;
      })

  get-forget_set :
      (i : ℕ)
      → get i (Alloc.forget_set uri (some set) p).0.by_alloc
        ≡ (if owned_by uri (get i p.by_alloc) then none else get i p.by_alloc)
  get-forget_set i =
      rw forget_set-eq (ground (arith, get-drop_all (entries set) p i, owned_iff_has i))

-- `Allocate` refuses the empty identity only, and what it grants is an id that was free.
pub data Granted (uri : Bytes) (p : Plane) : Alloc.Allocation → Type 0 where
  grants :
      {id : ℕ} {q : Plane}
      → get id p.by_alloc ≡ none
      → (0 < id)
      → owned_by uri (get id q.by_alloc) ≡ true
      → ((i : ℕ) → i ≢ id → get i q.by_alloc ≡ get i p.by_alloc)
      → Inv q
      → Granted uri p (granted id q)

-- On tables that agree, for a name that is not empty and while ids have not run out, Allocate
-- returns a free id above 0, owned by the agent, leaves every other allocation as it was and the
-- tables in agreement.
pub allocate-Granted :
    (p : Plane) (uri : Bytes) (now : ℕ)
    → Inv p
    → uri ≢ []
    → p.next_id + 1 < u32_mod
    → Granted uri p (Alloc.allocate uri now p)
unfolding Alloc.allocate Alloc.issue
allocate-Granted p uri now v named room =
    let entry : AllocEntry = record { uri = uri; src = unset; last_seen = now } in
    if_cases (Granted uri p) (uri == []) _ _ (λ e. absurd (named ((eq_iff uri []).0 e)))
      λ _. rw (next_nonzero_grows p.next_id room) (
        grants (v.fresh (p.next_id + 1) (omega arith)) (omega arith)
          (ground (arith, get-put (p.next_id + 1) (p.next_id + 1) entry p.by_alloc, eq_refl uri))
          (λ i h. ground (arith, get-put (p.next_id + 1) i entry p.by_alloc))
          (issue-Inv p v uri now (p.next_id + 1) (omega arith)))

abbrev pub forgotten : Bytes → Option AllocEntry → Option AllocEntry
forgotten uri found = if owned_by uri found then none else found

-- On tables that agree and for a name that is not empty, ForgetAgent releases every allocation of
-- the agent and no other, and the tables still agree.
pub forget_agent_lem :
    (p : Plane) (uri : Bytes)
    → Inv p
    → uri ≢ []
    → Inv (Alloc.forget_agent uri p).0
      × ((id : ℕ)
          → get id (Alloc.forget_agent uri p).0.by_alloc ≡ forgotten uri (get id p.by_alloc))
unfolding Alloc.forget_agent
forget_agent_lem p uri v named =
    if_cases Released (uri == []) _ _ (λ e. absurd (named ((eq_iff uri []).0 e)))
      λ _. found (get uri p.by_uri) refl
  where
    Released : Plane × ℕ → Type 0
    Released r = Inv r.0 × ((id : ℕ) → get id r.0.by_alloc ≡ forgotten uri (get id p.by_alloc))

    found : (set : Option IdSet) → get uri p.by_uri ≡ set → Released (Alloc.forget_set uri set p)
    found none e = (v, λ id. ground (arith, v.indexed uri id))
    found (some set) e = (forget_set-Inv p v uri set e, get-forget_set p v uri set e)

-- ===== src/Forward/Grants.antt =====
-- pkg/forward/plane.go: two calls of `Allocate`, one for each end of a stream, and what takes them back.
use outrelay_relay.Forward.Alloc
use outrelay_relay.Forward.Alloc.{granted, u32_mod}
use outrelay_relay.Forward.State.{unset, AllocEntry, Plane}
use outrelay_relay.Forward.Views.{owned_by}
use outrelay_relay.Forward.Index.{Inv}
use outrelay_relay.Forward.Invariant.{forget-Inv}
use outrelay_relay.Forward.Release.{next_nonzero_grows, issue-Inv}
use outrelay_relay.Common.{
  Bytes, ℕ, ◌≢◌, put, ◌≡◌, get, none, ◌+◌, [], if◌then◌else◌, arith, [], true, ◌<◌, ◌==◌, nat_eq,
  if_cases, get-put, Option-cases, eq_iff, eq_refl, inl, inr, bytes_eq, get-del, refl, ◌≤◌,
}

-- The ends have two different allocations that were free, the next two of the counter, and all others
-- are as they were.
pub record PairGrant (p : Plane) (first second : Bytes) (c d : ℕ) (q : Plane) : Type 0 where
  pub different : c ≢ d
  pub first_free : get c p.by_alloc ≡ none
  pub second_free : get d p.by_alloc ≡ none
  pub first_owned : owned_by first (get c q.by_alloc) ≡ true
  pub second_owned : owned_by second (get d q.by_alloc) ≡ true
  pub others : (i : ℕ) → i ≢ c → i ≢ d → get i q.by_alloc ≡ get i p.by_alloc
  pub agree : Inv q
  pub counted : (p.next_id < c) × (p.next_id < d) × (c ≤ q.next_id) × (d ≤ q.next_id)
  pub advanced : q.next_id ≡ p.next_id + 2

abbrev issued_next : Bytes → ℕ → Plane → Plane
issued_next uri now p = record p {
  by_alloc = put (p.next_id + 1) (record { uri = uri; src = unset; last_seen = now }) p.by_alloc;
  by_uri = Alloc.insert_id uri (p.next_id + 1) p.by_uri;
  next_id = p.next_id + 1;
}

allocate_next :
    (uri : Bytes) (now : ℕ) (p : Plane)
    → uri ≢ []
    → p.next_id + 1 < u32_mod
    → Alloc.allocate uri now p ≡ granted (p.next_id + 1) (issued_next uri now p)
unfolding Alloc.allocate Alloc.issue
allocate_next uri now p named room =
    if_cases (λ (a : Alloc.Allocation). a ≡ granted (p.next_id + 1) (issued_next uri now p))
      (uri == []) _ _ (λ e. absurd (named ((eq_iff uri []).0 e)))
      λ _. rw (next_nonzero_grows p.next_id room) refl

-- A plane with an agreeing pair of calls behind it.
pub data Granting (first second : Bytes) (now later : ℕ) (p : Plane) : Type 0 where
  grants :
      (c d : ℕ) (between q : Plane)
      → Alloc.allocate first now p ≡ granted c between
      → Alloc.allocate second later between ≡ granted d q
      → PairGrant p first second c d q
      → Granting first second now later p

pub allocate_pair :
    (first second : Bytes) (now later : ℕ) (p : Plane)
    → Inv p
    → first ≢ []
    → second ≢ []
    → p.next_id + 2 < u32_mod
    → Granting first second now later p
allocate_pair first second now later p v named also room =
    let one : AllocEntry = record { uri = first; src = unset; last_seen = now } in
    let two : AllocEntry = record { uri = second; src = unset; last_seen = later } in
    let c = p.next_id + 1 in
    let d = p.next_id + 1 + 1 in
    let between = issued_next first now p in
    let w = issue-Inv p v first now c (omega arith) in
    grants c d between (issued_next second later between)
      (allocate_next first now p named (omega arith))
      (allocate_next second later between also (omega arith))
      (record {
        different = omega arith;
        first_free = v.fresh c (omega arith);
        second_free = v.fresh d (omega arith);
        first_owned =
            ground
              (arith, get-put d c two between.by_alloc, get-put c c one p.by_alloc, eq_refl first);
        second_owned = ground (arith, get-put d d two between.by_alloc, eq_refl second);
        others =
            λ i a b. ground (arith, get-put d i two between.by_alloc, get-put c i one p.by_alloc);
        agree = issue-Inv between w second later d (omega arith);
        counted = (omega arith, omega arith, omega arith, omega arith);
        advanced = omega arith;
      })

pub get-forget :
    (id i : ℕ) (p : Plane)
    → get i (Alloc.forget id p).by_alloc ≡ (if id == i then none else get i p.by_alloc)
unfolding Alloc.forget Alloc.forget_entry Alloc.drop_entry
get-forget id i p = elim (Option-cases (get id p.by_alloc)) [
  | inl free ↦ ground (arith, free)
  | inr (entry, e) ↦ ground (arith, e, get-del id i p.by_alloc)
]

-- Taking both back leaves every allocation as it was.
module _ (p : Plane) (first second : Bytes) (c d : ℕ) (q : Plane)
    (g : PairGrant p first second c d q) where
  pub get-taken_back :
      (i : ℕ) → get i (Alloc.forget c (Alloc.forget d q)).by_alloc ≡ get i p.by_alloc
  get-taken_back i = ground (
    arith,
    get-forget c i (Alloc.forget d q),
    get-forget d i q,
    g.others i,
    g.first_free,
    g.second_free,
  )

  pub taken_back-Inv : Inv (Alloc.forget c (Alloc.forget d q))
  taken_back-Inv = forget-Inv _ (forget-Inv q g.agree d) c

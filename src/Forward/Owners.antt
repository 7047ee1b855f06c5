-- ===== src/Forward/Owners.antt =====
-- No operation of the plane but `Allocate` changes the counter, gives an allocation to an agent or moves
-- one to another agent.
use outrelay_relay.Common.{
  ℕ, ◌≡◌, refl, arith, Option, none, some, Bytes, get, Option-cases, inl, inr, if_cases, ◌∙◌, ◌∷◌,
  put, ◌==◌, ltb, get-del, List, entries, nat_eq, get-put, ◌&&◌, [], length, if◌then◌else◌,
  bytes_eq, eq_iff, ◌+◌,
}
use outrelay_relay.Forward.State.{
  AddrPort, AllocEntry, Plane, PendingEntry, QueuedPunch, ArmError, IdSet, addr_eq,
  punch_nonce_size,
}
use outrelay_relay.Forward.Alloc
use outrelay_relay.Forward.Register
use outrelay_relay.Forward.Views.{owner_at}

-- Each allocation that is left has the owner that it had.
pub record Keeps (p q : Plane) : Type 0 where
  pub counter : q.next_id ≡ p.next_id
  pub owners :
      (id : ℕ) (uri : Bytes)
      → owner_at (get id q.by_alloc) ≡ some uri
      → owner_at (get id p.by_alloc) ≡ some uri

pub Keeps-refl : (p : Plane) → Keeps p p
Keeps-refl p = record { counter = refl; owners = λ id uri h. h }

pub Keeps-trans : (p q r : Plane) → Keeps p q → Keeps q r → Keeps p r
Keeps-trans p q r a b = record {
  counter = b.counter ∙ a.counter;
  owners = λ id uri h. a.owners id uri (b.owners id uri h);
}

-- An entry that is written back under its id keeps its owner.
put-Keeps :
    (p q : Plane) (id : ℕ) (entry changed : AllocEntry)
    → get id p.by_alloc ≡ some entry
    → changed.uri ≡ entry.uri
    → q.next_id ≡ p.next_id
    → q.by_alloc ≡ put id changed p.by_alloc
    → Keeps p q
put-Keeps p q id entry changed found same count e = record {
  counter = count;
  owners = λ i uri h. ground (arith, get-put id i changed p.by_alloc, eq_iff id i);
}

module _ (p : Plane) (id : ℕ) (now : ℕ) where
  bind-Keeps :
      (src : AddrPort) (entry : AllocEntry)
      → get id p.by_alloc ≡ some entry
      → Keeps p (Register.bind id src now entry p)
  unfolding Register.bind
  bind-Keeps src entry found =
      if_cases (Keeps p) (entry.src == src) _ _
        (λ same. put-Keeps p _ id entry _ found refl refl refl)
        λ other. put-Keeps p _ id entry _ found refl refl refl

  arm_live-Keeps :
      (uri nonce : Bytes) (entry : AllocEntry) (queued : Option QueuedPunch)
      → get id p.by_alloc ≡ some entry
      → Keeps p (Register.arm_live id uri nonce now entry queued p)
  unfolding Register.arm_live Register.hold_pending Register.bind
  arm_live-Keeps uri nonce entry none found = record { counter = refl; owners = λ i u h. h }
  arm_live-Keeps uri nonce entry (some q) found =
      if_cases (Keeps p) (ltb now q.expires && q.nonce == nonce) _ _
        (λ fits.
          if_cases (Keeps p) (entry.src == q.src) _ _
            (λ same. put-Keeps p _ id entry _ found refl refl refl)
            λ other. put-Keeps p _ id entry _ found refl refl refl)
        λ waits. record { counter = refl; owners = λ i u h. h }

  pub arm_pending-Keeps : (uri nonce : Bytes) → Keeps p (Register.arm_pending id uri nonce now p).0
  unfolding Register.arm_pending Register.arm_entry
  arm_pending-Keeps uri nonce =
      if_cases (λ (r : Plane × Option ArmError). Keeps p r.0) (uri == []) _ _ (λ _. Keeps-refl p)
        λ named. elim (Option-cases (get id p.by_alloc)) [
          | inl free ↦ rw (free, Register.arm_entry) (Keeps-refl p)
          | inr (entry, e) ↦
              rw (e, Register.arm_entry)
                (if_cases (λ (r : Plane × Option ArmError). Keeps p r.0) (entry.uri == uri) _ _
                  (λ own. arm_live-Keeps uri nonce entry (get id p.queued) e)
                  λ foreign. Keeps-refl p)
        ]

  claim-Keeps :
      (src : AddrPort) (found : Option AllocEntry)
      → get id p.by_alloc ≡ found
      → Keeps p (Register.claim id src now found p)
  unfolding Register.claim
  claim-Keeps src none e = record { counter = refl; owners = λ i u h. h }
  claim-Keeps src (some entry) e =
      let bound = bind-Keeps src entry e in
      record { counter = bound.counter; owners = bound.owners }

  register_pending-Keeps :
      (src : AddrPort) (nonce : Bytes) (checked : ℕ) (pend : Option PendingEntry)
      → Keeps p (Register.register_pending id src nonce now checked pend p)
  unfolding Register.register_pending Register.queue_punch
  register_pending-Keeps src nonce checked none = record { counter = refl; owners = λ i u h. h }
  register_pending-Keeps src nonce checked (some pend) =
      if_cases (Keeps p) (ltb pend.expires checked) _ _
        (λ late. record { counter = refl; owners = λ i u h. h })
        λ live.
          if_cases (Keeps p) (pend.nonce == nonce) _ _
            (λ fits. claim-Keeps src (get id p.by_alloc) refl) λ other. Keeps-refl p

bump_sender-Keeps :
    (src : AddrPort) (now : ℕ) (p : Plane) → Keeps p (Register.bump_sender src now p)
unfolding Register.bump_sender
bump_sender-Keeps src now p = elim (Option-cases (get src p.src2id)) [
  | inl e ↦ rw (e, Register.bump_sender) (Keeps-refl p)
  | inr (id, e) ↦ elim (Option-cases (get id p.by_alloc)) [
    | inl gone ↦ rw (e, gone, Register.bump_sender) (Keeps-refl p)
    | inr (entry, found) ↦
        rw (e, found, Register.bump_sender) (put-Keeps p _ id entry _ found refl refl refl)
  ]
]

pub receive-Keeps :
    (buf : Bytes) (src : AddrPort) (now checked : ℕ) (p : Plane)
    → Keeps p (Register.receive buf src now checked p).0
unfolding Register.receive Register.register
receive-Keeps buf src now checked p =
    if_cases After (ltb (length buf) 4) _ _ (λ _. Keeps-refl p)
      λ _.
        if_cases After (Register.be_u32 buf == 0) _ _
          (λ _.
            if_cases After (ltb (length buf) (8 + punch_nonce_size)) _ _ (λ _. Keeps-refl p)
              λ _. register_pending-Keeps p _ now src _ checked _)
          λ _. bump_sender-Keeps src now p
  where
    After : Plane × Option (AddrPort × Bytes) → Type 0
    After r = Keeps p r.0

drop_entry-Keeps : (id : ℕ) (entry : AllocEntry) (p : Plane) → Keeps p (Alloc.drop_entry id entry p)
unfolding Alloc.drop_entry
drop_entry-Keeps id entry p = record {
  counter = refl;
  owners = λ i uri h. ground (arith, get-del id i p.by_alloc);
}

pub forget-Keeps : (id : ℕ) (p : Plane) → Keeps p (Alloc.forget id p)
unfolding Alloc.forget
forget-Keeps id p = elim (Option-cases (get id p.by_alloc)) [
  | inl free ↦ rw (free, Alloc.forget_entry) (record { counter = refl; owners = λ i u h. h })
  | inr (entry, e) ↦ rw (e, Alloc.forget_entry) (drop_entry-Keeps id entry p)
]

release_entry-Keeps :
    (id : ℕ) (found : Option AllocEntry) (s : Plane × ℕ)
    → Keeps s.0 (Alloc.release_entry id found s).0
unfolding Alloc.release_entry
release_entry-Keeps id none s = Keeps-refl s.0
release_entry-Keeps id (some entry) s = record {
  counter = refl;
  owners = λ i uri h. ground (arith, get-del id i s.0.by_alloc);
}

release_all-Keeps :
    (ids : List (ℕ × Unit {0})) (s : Plane × ℕ) → Keeps s.0 (Alloc.release_all ids s).0
unfolding Alloc.release_all
release_all-Keeps [] s = Keeps-refl s.0
release_all-Keeps ((id, _) ∷ ids) s =
    let once = Alloc.release_entry id (get id s.0.by_alloc) s in
    Keeps-trans s.0 once.0 _ (release_entry-Keeps id _ s) (release_all-Keeps ids once)

forget_set-Keeps :
    (uri : Bytes) (set : Option IdSet) (p : Plane) → Keeps p (Alloc.forget_set uri set p).0
unfolding Alloc.forget_set
forget_set-Keeps uri none p = Keeps-refl p
forget_set-Keeps uri (some set) p =
    let released = release_all-Keeps (entries set) (p, 0) in
    record { counter = released.counter; owners = released.owners }

pub forget_agent-Keeps : (uri : Bytes) (p : Plane) → Keeps p (Alloc.forget_agent uri p).0
unfolding Alloc.forget_agent
forget_agent-Keeps uri p =
    if_cases (λ (r : Plane × ℕ). Keeps p r.0) (uri == []) _ _ (λ _. Keeps-refl p)
      λ _. forget_set-Keeps uri (get uri p.by_uri) p

evict_idle-Keeps :
    (now : ℕ) (es : List (ℕ × AllocEntry)) (p : Plane) → Keeps p (Alloc.evict_idle now es p)
unfolding Alloc.evict_idle
evict_idle-Keeps now [] p = Keeps-refl p
evict_idle-Keeps now ((id, entry) ∷ es) p =
    let q = if Alloc.is_idle p.idle_ttl now entry then Alloc.drop_entry id entry p else p in
    Keeps-trans p q _
      (if_cases (Keeps p) (Alloc.is_idle p.idle_ttl now entry) _ _
        (λ _. drop_entry-Keeps id entry p) λ _. Keeps-refl p)
      (evict_idle-Keeps now es q)

pub gc_once-Keeps : (now : ℕ) (p : Plane) → Keeps p (Alloc.gc_once now p)
unfolding Alloc.gc_once Alloc.sweep_expired
gc_once-Keeps now p =
    let swept = evict_idle-Keeps now (entries p.by_alloc) p in
    record { counter = swept.counter; owners = swept.owners }

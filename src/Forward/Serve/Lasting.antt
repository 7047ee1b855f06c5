-- ===== src/Forward/Serve/Lasting.antt =====
-- Which allocations last while `Run` serves.
use outrelay_relay.Forward.State.{
  AddrPort, Plane, AllocEntry, PendingEntry, addr_eq, punch_nonce_size, is_valid,
}
use outrelay_relay.Forward.Register
use outrelay_relay.Forward.Index.{Inv}
use outrelay_relay.Forward.Invariant.{receive-Inv}
use outrelay_relay.Forward.Expiry.{gc_once_lem}
use outrelay_relay.Forward.Owners.{Keeps, Keeps-refl, Keeps-trans, receive-Keeps, gc_once-Keeps}
use outrelay_relay.Forward.Serve.{
  PlaneEvent, datagram, read_error, tick, context_ends, collector_sees_end, Reader, reading, closed,
  broken, PlaneService, run_plane, on_datagram, on_event, serve_plane,
}
use outrelay_relay.Forward.Views.{owner_at}
use outrelay_relay.Common.{
  List, ℕ, Option, Bytes, Option-cases, get, ◌≡◌, some, inl, if_cases, inr, ltb, ◌==◌, length, put,
  ◌+◌, nat_eq, arith, none, refl, get-put, eq_iff, bytes_eq, ◌∷◌, Bool-cases, false, true, [], ◌∙◌,
}

put-owner :
    (m : List (ℕ × AllocEntry)) (id : ℕ) (entry changed : AllocEntry)
    → get id m ≡ some entry
    → changed.uri ≡ entry.uri
    → (i : ℕ) → owner_at (get i (put id changed m)) ≡ owner_at (get i m)
put-owner m id entry changed found same i = ground (arith, get-put id i changed m, eq_iff id i)

-- Every id has the owner that it had, or none as before.
abbrev SameOwners : Plane → Plane → Type 0
SameOwners p q = (i : ℕ) → owner_at (get i q.by_alloc) ≡ owner_at (get i p.by_alloc)

module _ (p : Plane) (src : AddrPort) (now checked : ℕ) where
  bind-SameOwners :
      (id : ℕ) (entry : AllocEntry)
      → get id p.by_alloc ≡ some entry
      → SameOwners p (Register.bind id src now entry p)
  unfolding Register.bind
  bind-SameOwners id entry found =
      if_cases (SameOwners p) (entry.src == src) _ _ (λ same. put-owner _ id entry _ found refl)
        λ other. put-owner _ id entry _ found refl

  claim-SameOwners :
      (id : ℕ) (e : Option AllocEntry)
      → get id p.by_alloc ≡ e
      → SameOwners p (Register.claim id src now e p)
  unfolding Register.claim
  claim-SameOwners id none gone i = refl
  claim-SameOwners id (some entry) found i = bind-SameOwners id entry found i

  pending-SameOwners :
      (id : ℕ) (nonce : Bytes) (e : Option PendingEntry)
      → SameOwners p (Register.register_pending id src nonce now checked e p)
  unfolding Register.register_pending Register.queue_punch
  pending-SameOwners id nonce none = λ i. refl
  pending-SameOwners id nonce (some pend) =
      if_cases (SameOwners p) (ltb pend.expires checked) _ _ (λ late i. refl)
        λ timely.
          if_cases (SameOwners p) (pend.nonce == nonce) _ _
            (λ fits. claim-SameOwners id (get id p.by_alloc) refl) λ misfit i. refl

  bump_sender-SameOwners : SameOwners p (Register.bump_sender src now p)
  unfolding Register.bump_sender
  bump_sender-SameOwners i = elim (Option-cases (get src p.src2id)) [
    | inl e ↦ rw (e, Register.bump_sender) refl
    | inr (id, e) ↦ elim (Option-cases (get id p.by_alloc)) [
      | inl gone ↦ rw (e, gone, Register.bump_sender) refl
      | inr (entry, found) ↦
          rw (e, found, Register.bump_sender) (put-owner _ id entry _ found refl i)
    ]
  ]

  pub receive-SameOwners : (buf : Bytes) → SameOwners p (Register.receive buf src now checked p).0
  unfolding Register.receive Register.register
  receive-SameOwners buf =
      if_cases {A = Plane × Option (AddrPort × Bytes)} (λ r. SameOwners p r.0) (ltb (length buf) 4)
        _ _ (λ short i. refl)
        λ long.
          if_cases {A = Plane × Option (AddrPort × Bytes)} (λ r. SameOwners p r.0)
            (Register.be_u32 buf == 0) _ _
            (λ registers.
              if_cases {A = Plane × Option (AddrPort × Bytes)} (λ r. SameOwners p r.0)
                (ltb (length buf) (8 + punch_nonce_size)) _ _ (λ short i. refl)
                λ whole. pending-SameOwners _ _ _)
            λ known. bump_sender-SameOwners

-- The sources of the datagrams are addresses.
abbrev pub Sourced : List PlaneEvent → Type 0
Sourced [] = Unit
Sourced (datagram buf src now checked ∷ es) = (is_valid src ≡ true) × Sourced es
Sourced (_ ∷ es) = Sourced es

-- What an event keeps of a plane.
record Kept (s t : PlaneService) : Type 0 where
  agrees : Inv s.plane → Inv t.plane
  keeps : Keeps s.plane t.plane
  lasts : s.collecting ≡ false → SameOwners s.plane t.plane × (t.collecting ≡ false)

Kept-refl : (s : PlaneService) → Kept s s
Kept-refl s = record {
  agrees = λ v. v;
  keeps = Keeps-refl s.plane;
  lasts = λ off. (λ i. refl, off);
}

module _ (s : PlaneService) where
  on_datagram-Kept :
      (r : Reader) (buf : Bytes) (src : AddrPort) (now checked : ℕ)
      → is_valid src ≡ true
      → Kept s (on_datagram r buf src now checked s)
  unfolding on_datagram
  on_datagram-Kept reading buf src now checked known = record {
    agrees = λ v. receive-Inv s.plane v buf src now checked known;
    keeps = receive-Keeps buf src now checked s.plane;
    lasts = λ off. (receive-SameOwners s.plane src now checked buf, off);
  }
  on_datagram-Kept closed buf src now checked known = Kept-refl s
  on_datagram-Kept broken buf src now checked known = Kept-refl s

  on_tick-Kept : (now : ℕ) → Kept s (on_event (tick now) s)
  unfolding on_event
  on_tick-Kept now = record {
    agrees = λ v. elim (Bool-cases s.collecting) [
      | inl on ↦ rw (on) ((gc_once_lem s.plane now v).0)
      | inr off ↦ rw (off) v
    ];
    keeps =
        if_cases (λ (t : PlaneService). Keeps s.plane t.plane) s.collecting _ _
          (λ on. gc_once-Keeps now s.plane) λ off. Keeps-refl s.plane;
    lasts = λ off. rw (off) (λ i. refl, refl);
  }

on_event-Kept : (e : PlaneEvent) (s : PlaneService) → Sourced (e ∷ []) → Kept s (on_event e s)
unfolding on_event
on_event-Kept (datagram buf src now checked) s known =
    on_datagram-Kept s s.reader buf src now checked known.0
on_event-Kept read_error s known = record {
  agrees = λ v. v;
  keeps = Keeps-refl s.plane;
  lasts = λ off. (λ i. refl, off);
}
on_event-Kept (tick now) s known = on_tick-Kept s now
on_event-Kept context_ends s known = record {
  agrees = λ v. v;
  keeps = Keeps-refl s.plane;
  lasts = λ off. (λ i. refl, off);
}
on_event-Kept collector_sees_end s known =
    if_cases (Kept s) s.ended _ _
      (λ over. record {
        agrees = λ v. v;
        keeps = Keeps-refl s.plane;
        lasts = λ off. (λ i. refl, refl);
      })
      λ live. Kept-refl s

Kept-trans : (s t u : PlaneService) → Kept s t → Kept t u → Kept s u
Kept-trans s t u a b = record {
  agrees = λ v. b.agrees (a.agrees v);
  keeps = Keeps-trans s.plane t.plane u.plane a.keeps b.keeps;
  lasts = λ off.
      let (same, off') = a.lasts off in
      let (same', off'') = b.lasts off' in (λ i. same' i ∙ same i, off'');
}

Sourced-split :
    (e : PlaneEvent) (es : List PlaneEvent) → Sourced (e ∷ es) → Sourced (e ∷ []) × Sourced es
Sourced-split (datagram buf src now checked) es (known, rest) = ((known, tt), rest)
Sourced-split read_error es rest = (tt, rest)
Sourced-split (tick now) es rest = (tt, rest)
Sourced-split context_ends es rest = (tt, rest)
Sourced-split collector_sees_end es rest = (tt, rest)

serve_plane-Kept :
    (es : List PlaneEvent) (s : PlaneService) → Sourced es → Kept s (serve_plane es s)
unfolding serve_plane
serve_plane-Kept [] s known = Kept-refl s
serve_plane-Kept (e ∷ es) s known =
    let (here, rest) = Sourced-split e es known in
    Kept-trans s _ _ (on_event-Kept e s here) (serve_plane-Kept es (on_event e s) rest)

-- However `Run` is served, the tables of the plane agree and it gives no allocation away.
pub run_plane-Keeps :
    (p : Plane) (es : List PlaneEvent)
    → Inv p
    → Sourced es
    → Inv (serve_plane es (run_plane p)).plane × Keeps p (serve_plane es (run_plane p)).plane
unfolding run_plane
run_plane-Keeps p es v known =
    let k = serve_plane-Kept es (run_plane p) known in (k.agrees v, k.keeps)

-- On a plane whose tables agree and whose allocations do not expire, whatever datagrams from valid
-- sources, read errors and ticks come and whenever the context ends while Run serves, the tables
-- still agree and every id has the owner that it had, or none as before: no allocation is lost,
-- given out or moved to another agent.
pub allocations_last :
    (p : Plane) (es : List PlaneEvent)
    → Inv p
    → Sourced es
    → p.idle_ttl ≡ 0
    → Inv (serve_plane es (run_plane p)).plane
      × ((id : ℕ)
          → owner_at (get id (serve_plane es (run_plane p)).plane.by_alloc)
            ≡ owner_at (get id p.by_alloc))
unfolding run_plane
allocations_last p es v known never =
    let k = serve_plane-Kept es (run_plane p) known in
    (k.agrees v, (k.lasts (ground (arith, never))).0)

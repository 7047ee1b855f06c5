-- ===== src/Forward/History.antt =====
-- The plane under any sequence of calls and datagrams: its tables agree, and an allocation is bound
-- to an address only by a punch that carries a nonce armed by the allocation's owner.
use outrelay_relay.Common.{
  ℕ, ◌≡◌, ◌≢◌, true, Bool, [], ◌∷◌, nat_eq, bytes_eq, Bytes, get, ◌==◌, if_cases, ◌+◌, List, ◌<◌,
  ◌&&◌, false, drop, ◌||◌, take, not, arith, ltb, some, length, eq_refl, Option,
}
use outrelay_relay.Forward.State.{
  AddrPort, AllocEntry, Plane, is_valid, addr_eq, new_plane, set_idle_ttl, set_pending_ttl,
  punch_nonce_size,
}
use outrelay_relay.Forward.Alloc
use outrelay_relay.Forward.Alloc.{panicked, out_of_fuel, granted, u32_mod, issued}
use outrelay_relay.Forward.Register
use outrelay_relay.Forward.Index.{Inv, new_plane-Inv}
use outrelay_relay.Forward.Invariant.{arm_pending-Inv, forget-Inv, receive-Inv}
use outrelay_relay.Forward.Release.{allocate-Granted, Granted, grants, forget_agent_lem}
use outrelay_relay.Forward.Expiry.{gc_once_lem}
use outrelay_relay.Forward.Evidence.{Evidence, Evidence-weaken}
use outrelay_relay.Forward.Authority.{
  arm_pending-Evidence, register-Evidence, bump_sender-Evidence, forget-Evidence, allocate-Evidence,
  forget_agent-Evidence, gc_once-Evidence,
}

pub data Event : Type 0 where
  issues : Bytes → ℕ → Event
  arms : ℕ → Bytes → Bytes → ℕ → Event
  datagram : Bytes → AddrPort → ℕ → ℕ → Event
  frees : ℕ → Event
  leaves : Bytes → Event
  collects : ℕ → Event

unfoldable pub step : Event → Plane → Plane
step (issues uri now) p = issued p (Alloc.allocate uri now p)
step (arms id uri nonce now) p = (Register.arm_pending id uri nonce now p).0
step (datagram buf src now checked) p = (Register.receive buf src now checked p).0
step (frees id) p = Alloc.forget id p
step (leaves uri) p = (Alloc.forget_agent uri p).0
step (collects now) p = Alloc.gc_once now p

-- What the callers and the network keep to: an agent has an identity, ids have not run out, and a
-- datagram comes from an address.
abbrev pub Allowed : Event → Plane → Type 0
Allowed (issues uri now) p = (uri ≢ []) × (p.next_id + 1 < u32_mod)
Allowed (datagram buf src now checked) p = is_valid src ≡ true
Allowed (leaves uri) p = uri ≢ []
Allowed _ p = Unit

-- The events, the last one first, and the plane that they leave.
pub data Run : List Event → Plane → Type 0 where
  start : (idle pending : ℕ) → Run [] (set_pending_ttl pending (set_idle_ttl idle new_plane))
  next : {h : List Event} {p : Plane} (e : Event) → Run h p → Allowed e p → Run (e ∷ h) (step e p)

issues-Inv :
    (p : Plane) (uri : Bytes) (a : Alloc.Allocation) → Inv p → Granted uri p a → Inv (issued p a)
issues-Inv p uri panicked v g = elim g [ ]
issues-Inv p uri out_of_fuel v g = elim g [ ]
issues-Inv p uri (granted id q) v (grants _ _ _ _ w) = w

step-Inv : (e : Event) (p : Plane) → Inv p → Allowed e p → Inv (step e p)
unfolding step
step-Inv (issues uri now) p v (named, room) =
    issues-Inv p uri _ v (allocate-Granted p uri now v named room)
step-Inv (arms id uri nonce now) p v ok = arm_pending-Inv p v id uri nonce now
step-Inv (datagram buf src now checked) p v ok = receive-Inv p v buf src now checked ok
step-Inv (frees id) p v ok = forget-Inv p v id
step-Inv (leaves uri) p v ok = (forget_agent_lem p uri v ok).0
step-Inv (collects now) p v ok = (gc_once_lem p now v).0

-- After any sequence of grants, arms, datagrams, releases and collections in which an identity is
-- never empty, ids have not run out and a datagram has a valid source, the tables of the plane
-- agree: an agent's set lists exactly the allocations it owns, id 0 and the ids above the counter
-- are free, the reverse index points to entries bound to the address, and an armed nonce belongs
-- to the owner of a live allocation.
pub Run-Inv : {h : List Event} {p : Plane} → Run h p → Inv p
unfolding set_pending_ttl set_idle_ttl
Run-Inv (start idle pending) = record {
  indexed = new_plane-Inv.indexed;
  fresh = new_plane-Inv.fresh;
  reserved = new_plane-Inv.reserved;
  reversed = new_plane-Inv.reversed;
  armed = new_plane-Inv.armed;
  src_known = new_plane-Inv.src_known;
  queue_known = new_plane-Inv.queue_known;
}
Run-Inv (next {p = p} e r ok) = step-Inv e p (Run-Inv r) ok

-- The agent `uri` armed `nonce` for `id`.
unfoldable pub is_arm : ℕ → Bytes → Bytes → Event → Bool
is_arm id uri nonce (arms i u n now) = i == id && u == uri && n == nonce
is_arm id uri nonce _ = false

-- The address sent a registration of `id` with `nonce`.
unfoldable pub is_punch : ℕ → AddrPort → Bytes → Event → Bool
is_punch id src nonce (datagram buf s now checked) =
    not (ltb (length buf) (8 + punch_nonce_size))
    && s == src
    && Register.be_u32 buf == 0
    && Register.be_u32 (drop 4 buf) == id
    && take punch_nonce_size (drop 8 buf) == nonce
is_punch id src nonce _ = false

unfoldable pub any_event : (Event → Bool) → List Event → Bool
any_event test [] = false
any_event test (e ∷ h) = test e || any_event test h

abbrev pub armed_in : List Event → ℕ → Bytes → Bytes → Bool
armed_in h id uri nonce = any_event (is_arm id uri nonce) h

abbrev pub punched_in : List Event → ℕ → AddrPort → Bytes → Bool
punched_in h id src nonce = any_event (is_punch id src nonce) h

abbrev Seen : List Event → Plane → Type 0
Seen h p = Evidence (armed_in h) (punched_in h) p

Seen-later : (e : Event) (h : List Event) (p : Plane) → Seen h p → Seen (e ∷ h) p
unfolding any_event
Seen-later e h p v =
    Evidence-weaken _ _ (armed_in h) (punched_in h) p (λ id uri nonce a. ground arith)
      (λ id src nonce b. ground arith) v.pending_ev v.queued_ev v.bound_ev

punch-Seen :
    (h : List Event) (buf : Bytes) (src : AddrPort) (now checked : ℕ)
    → (Register.be_u32 buf == 0) ≡ true
    → ltb (length buf) (8 + punch_nonce_size) ≡ false
    → punched_in
        (datagram buf src now checked ∷ h)
        (Register.be_u32 (drop 4 buf))
        src
        (take punch_nonce_size (drop 8 buf))
      ≡ true
unfolding any_event is_punch
punch-Seen h buf src now checked zero_prefix long =
    ground (arith, eq_refl src, eq_refl (take punch_nonce_size (drop 8 buf)))

receive-Seen :
    (h : List Event) (p : Plane) (buf : Bytes) (src : AddrPort) (now checked : ℕ)
    → Inv p
    → Seen (datagram buf src now checked ∷ h) p
    → Seen (datagram buf src now checked ∷ h) (Register.receive buf src now checked p).0
unfolding Register.receive
receive-Seen h p buf src now checked w v =
    if_cases After (ltb (length buf) 4) _ _ (λ _. v)
      λ _.
        if_cases After (Register.be_u32 buf == 0) _ _
          (λ zero_prefix.
            if_cases After (ltb (length buf) (8 + punch_nonce_size)) _ _ (λ _. v)
              λ long.
                register-Evidence _ _ p v _ src _ now checked w
                  (punch-Seen h buf src now checked zero_prefix long))
          (λ _. bump_sender-Evidence _ _ p v src now)
  where
    After : Plane × Option (AddrPort × Bytes) → Type 0
    After r = Seen (datagram buf src now checked ∷ h) r.0

arm-Seen :
    (h : List Event) (id : ℕ) (uri nonce : Bytes) (now : ℕ)
    → armed_in (arms id uri nonce now ∷ h) id uri nonce ≡ true
unfolding any_event is_arm
arm-Seen h id uri nonce now = ground (arith, eq_refl uri, eq_refl nonce)

step-Seen :
    (e : Event) (h : List Event) (p : Plane) → Inv p → Seen (e ∷ h) p → Seen (e ∷ h) (step e p)
unfolding step
step-Seen (issues uri now) h p w v = allocate-Evidence _ _ p v uri now
step-Seen (arms id uri nonce now) h p w v =
    arm_pending-Evidence _ _ p v id uri nonce now (arm-Seen h id uri nonce now)
step-Seen (datagram buf src now checked) h p w v = receive-Seen h p buf src now checked w v
step-Seen (frees id) h p w v = forget-Evidence _ _ p v id
step-Seen (leaves uri) h p w v = forget_agent-Evidence _ _ p uri v
step-Seen (collects now) h p w v = gc_once-Evidence _ _ p now v

Run-Seen : {h : List Event} {p : Plane} → Run h p → Seen h p
unfolding set_pending_ttl set_idle_ttl new_plane get
Run-Seen (start idle pending) = record {
  pending_ev = λ id pend e. ground arith;
  queued_ev = λ id q e. ground arith;
  bound_ev = λ id entry e. absurd (ground arith);
}
Run-Seen (next {h = h} {p = p} e r ok) = step-Seen e h p (Run-Inv r) (Seen-later e h p (Run-Seen r))

-- After any sequence of grants, arms, datagrams, releases and collections in which an identity is
-- never empty, ids have not run out and a datagram has a valid source, an allocation bound to an
-- address was claimed by its owner: the owner armed a nonce for it, and that address sent a
-- registration of it with the same nonce.
pub bound_by_owner :
    {h : List Event} {p : Plane} (id : ℕ) (entry : AllocEntry)
    → Run h p
    → get id p.by_alloc ≡ some entry
    → is_valid entry.src ≡ true
    → (nonce : Bytes) × (armed_in h id entry.uri nonce ≡ true)
      × (punched_in h id entry.src nonce ≡ true)
bound_by_owner id entry r = (Run-Seen r).bound_ev id entry

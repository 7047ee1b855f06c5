-- ===== src/Edge/Control/Loop/Isolation.antt =====
-- pkg/edge/edge.go: what an agent can reach with its control frames.
use outrelay_relay.Forward.State.{AllocEntry, QueuedPunch, Plane, punch_nonce_size, addr_eq}
use outrelay_relay.Forward.Views.{owner_at}
use outrelay_relay.Forward.Register.{bind, hold_pending, arm_live, arm_entry, arm_pending}
use outrelay_relay.Registry.{Provider, RegisterServiceRequest}
use outrelay_relay.Edge.Control.{
  ForwardRegister, handle_forward_register, register_forward, Bytes, ArmError,
  ForwardRegisterReject,
}
use outrelay_relay.Edge.Control.Loop.{
  ControlFrame, register, ping, observed_addr_query, candidate, checkpoint, migrate_to_p2p,
  forward_resume, forward_register, unreadable, unexpected, Tables, TurnClock, on_control,
}
use outrelay_relay.Common.{
  Bytes, ℕ, Option, get, ◌≡◌, ◌≢◌, some, nat_eq, none, refl, put, if_cases, Bool-cases, ltb, ◌&&◌,
  not, ◌==◌, inl, eq_iff, [], length, bytes_eq, arith, get-put, inr,
}

-- What is left to others: the allocations of other agents, and the owner of each.
abbrev Spares : Bytes → Plane → Plane → Type 0
Spares uri p q =
    (i : ℕ)
    → (owner_at (get i q.by_alloc) ≡ owner_at (get i p.by_alloc))
      × (owner_at (get i p.by_alloc) ≢ some uri → get i q.by_alloc ≡ get i p.by_alloc)

module _ (uri : Bytes) (id now : ℕ) (nonce : Bytes) (p : Plane) where
  -- Writing the entry of this agent back spares the others.
  put-Spares :
      (entry changed : AllocEntry)
      → get id p.by_alloc ≡ some entry
      → entry.uri ≡ uri
      → changed.uri ≡ entry.uri
      → (i : ℕ)
      → (owner_at (get i (put id changed p.by_alloc)) ≡ owner_at (get i p.by_alloc))
        × (owner_at (get i p.by_alloc) ≢ some uri
            → get i (put id changed p.by_alloc) ≡ get i p.by_alloc)
  put-Spares entry changed found own same i = elim (Bool-cases (id == i)) [
    | inl here ↦ (
      ground (arith, get-put id i changed p.by_alloc, eq_iff id i, found, same),
      λ other. absurd (other (ground (arith, eq_iff id i, found, own))),
    )
    | inr apart ↦ (
      ground (arith, get-put id i changed p.by_alloc, apart),
      λ other. ground (arith, get-put id i changed p.by_alloc, apart),
    )
  ]

  arm_live-Spares :
      (entry : AllocEntry) (queued : Option QueuedPunch)
      → get id p.by_alloc ≡ some entry
      → entry.uri ≡ uri
      → Spares uri p (arm_live id uri nonce now entry queued p)
  unfolding arm_live hold_pending bind
  arm_live-Spares entry none found own = λ i. (refl, λ other. refl)
  arm_live-Spares entry (some q) found own =
      if_cases (Spares uri p) (ltb now q.expires && q.nonce == nonce) _ _
        (λ fits.
          if_cases (Spares uri p) (entry.src == q.src) _ _
            (λ stays. put-Spares entry (record entry { last_seen = now }) found own refl)
            λ moves.
              put-Spares entry (record entry { src = q.src; last_seen = now }) found own refl)
        λ waits i. (refl, λ other. refl)

  arm_entry-Spares :
      (found : Option AllocEntry)
      → get id p.by_alloc ≡ found
      → Spares uri p (arm_entry id uri nonce now found p).0
  unfolding arm_entry
  arm_entry-Spares none e = λ i. (refl, λ other. refl)
  arm_entry-Spares (some entry) e =
      if_cases (λ (r : Plane × Option ArmError). Spares uri p r.0) (entry.uri == uri) _ _
        (λ own. arm_live-Spares entry (get id p.queued) e ((eq_iff entry.uri uri).0 own))
        λ foreign i. (refl, λ other. refl)

  arm_pending-Spares : Spares uri p (arm_pending id uri nonce now p).0
  unfolding arm_pending
  arm_pending-Spares =
      if_cases (λ (r : Plane × Option ArmError). Spares uri p r.0) (uri == []) _ _
        (λ nameless i. (refl, λ other. refl)) λ named. arm_entry-Spares (get id p.by_alloc) refl

register_forward-Spares :
    (uri : Bytes) (m : ForwardRegister) (now : ℕ) (p : Plane)
    → Spares uri p (register_forward uri m now p).1
unfolding register_forward
register_forward-Spares uri m now p =
    if_cases (λ (r : Option ForwardRegisterReject × Plane). Spares uri p r.1)
      (not (length m.punch_nonce == punch_nonce_size)) _ _ (λ short i. (refl, λ other. refl))
      λ long. arm_pending-Spares uri m.alloc_id now m.punch_nonce p

module _ (parse_tenant : Bytes → Option Bytes) (controller : RegisterServiceRequest → Option Bytes)
    (split_host_port : Bytes → Option (Bytes × Bytes)) (atoi : Bytes → Option ℕ) (ac : Provider)
    (remote_addr : Bytes) (clock : TurnClock) where
  untouched :
      (t : Tables) (p : Plane)
      → t.forward ≡ some p
      → (q : Plane) × (t.forward ≡ some q)
        × (t.reg ≡ t.reg)
        × (t.pairs ≡ t.pairs)
        × Spares ac.uri p q
  untouched t p on = (p, on, refl, refl, λ i. (refl, λ other. refl))

  -- Whatever frame an agent sends on its control stream, the directory and the pairs stay as they
  -- are, every allocation keeps its owner, and the allocations that the agent does not own stay as
  -- they are.
  pub control_spares_others :
      (frame : ControlFrame) (t : Tables) (p : Plane)
      → t.forward ≡ some p
      → let after =
          (on_control parse_tenant controller split_host_port atoi ac remote_addr clock frame
            t).1 in
        (q : Plane) × (after.forward ≡ some q)
        × (after.reg ≡ t.reg)
        × (after.pairs ≡ t.pairs)
        × ((i : ℕ)
            → (owner_at (get i q.by_alloc) ≡ owner_at (get i p.by_alloc))
              × (owner_at (get i p.by_alloc) ≢ some ac.uri → get i q.by_alloc ≡ get i p.by_alloc))
  unfolding on_control handle_forward_register
  control_spares_others (register m) t p on = untouched t p on
  control_spares_others ping t p on = untouched t p on
  control_spares_others (observed_addr_query id) t p on = untouched t p on
  control_spares_others (candidate id frame) t p on = untouched t p on
  control_spares_others (checkpoint id frame) t p on = untouched t p on
  control_spares_others (migrate_to_p2p id) t p on = (p, on, refl, refl, λ i. (refl, λ other. refl))
  control_spares_others (forward_resume id) t p on = untouched t p on
  control_spares_others (forward_register m) t p on = (
    (register_forward ac.uri m clock.now p).1,
    rw on refl,
    refl,
    refl,
    register_forward-Spares ac.uri m clock.now p,
  )
  control_spares_others unreadable t p on = untouched t p on
  control_spares_others unexpected t p on = untouched t p on

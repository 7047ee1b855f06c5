-- ===== src/Edge/System/Steps.antt =====
-- pkg/edge/edge.go: every act keeps what holds of the relay, and so does any sequence of them.
use outrelay_relay.Common.{
  ℕ, ◌+◌, ◌*◌, ◌<◌, ◌≤◌, Option, none, some, List, [], ◌∷◌, ◌≡◌, ◌≢◌, inl, inr, arith, get, refl,
  nat_eq, bytes_eq, subst, sym, All, length, true, Option-cases,
}
use outrelay_relay.Registry.{Provider}
use outrelay_relay.Forward.State.{is_valid}
use outrelay_relay.Forward.Alloc.{u32_mod}
use outrelay_relay.Edge.Handshake.{Incoming, Admission, serve_conn}
use outrelay_relay.Edge.Handshake.Certified.{attached_is_certified}
use outrelay_relay.Edge.Streams.{AuditEvent, World, OpenStream, AuditEvent}
use outrelay_relay.Edge.System.{
  Outside, Process, System, Act, connects, tracks, untracks, unregisters, releases, opens, answers,
  comes_back, demotes, ends, control, resumes, datagram, collects, advertises, watches, ships_audit,
  server_of, set_successors, Engine, Emitter, Cache,
}
use outrelay_relay.Edge.System.Acts.{
  step, run, watch_as, ship_as, connect_as, open_as, come_back_as, demote_as,
}
use outrelay_relay.Edge.System.Allocs.{counter_in}
use outrelay_relay.Edge.System.Safe.{
  Safe, Stepped, stay-Stepped, connect-Stepped, track-Stepped, untrack-Stepped, unregister-Stepped,
  release-Stepped,
}
use outrelay_relay.Edge.System.Calm.{control-Stepped, datagram-Stepped, collect-Stepped}
use outrelay_relay.Edge.System.Opening.{open-Stepped, come_back-Stepped, demote-Stepped}
use outrelay_relay.Edge.System.Answering.{answer-Stepped}
use outrelay_relay.Edge.System.Ending.{end-Stepped, resume-Stepped}

-- A datagram comes from an address.
abbrev pub Addressed : Act → Type 0
Addressed (datagram buf src now checked) = is_valid src ≡ true
Addressed _ = Unit

-- `identity.Parse` refuses the empty name.
module _ (out : Outside) (no_name : out.parse_role [] ≡ none) where
  certified :
      (c : Incoming) (s : System) (ac : Provider)
      → (serve_conn out.parse_role c (server_of s)).0 ≡ Admission.agent ac
      → ac.uri ≢ []
  certified c s ac e unnamed =
      let role = ((attached_is_certified out.parse_role c (server_of s)).0 ac).0 e in
      ground (arith, role, no_name, unnamed)

  connect_as-Stepped :
      (s : System)
      → Safe s
      → (c : Incoming) (known : Option Provider) → Stepped s (connect_as out c known s)
  unfolding connect_as
  connect_as-Stepped s v c (some ac) = stay-Stepped s v
  connect_as-Stepped s v c none =
      let (iff, put_in, kept) = attached_is_certified out.parse_role c (server_of s) in
      connect-Stepped s v (serve_conn out.parse_role c (server_of s))
        (λ ac e. (certified c s ac e, (put_in ac e).1)) kept

  watch_as-Stepped :
      (e : Engine) (m : Cache) (s : System)
      → Safe s
      → (old : Option Engine) → Stepped s (watch_as out e m old s)
  unfolding watch_as
  watch_as-Stepped e m s v none = stay-Stepped s v
  watch_as-Stepped e m s v (some old) =
      (record { names = v.names; allocs = v.allocs; rows = v.rows }, omega arith)

  ship_as-Stepped :
      (s : System)
      → Safe s
      → (queue : Option (Emitter AuditEvent)) → Stepped s (ship_as out queue s)
  unfolding ship_as
  ship_as-Stepped s v none = stay-Stepped s v
  ship_as-Stepped s v (some e) =
      (record { names = v.names; allocs = v.allocs; rows = v.rows }, omega arith)

  step-Stepped :
      (a : Act) (s : System)
      → Safe s
      → Addressed a
      → counter_in s.relay.forward + 2 < u32_mod
      → Stepped s (step out a s)
  unfolding step open_as come_back_as demote_as set_successors
  step-Stepped (connects c) s v ok room = connect_as-Stepped s v c (get c.conn s.conns)
  step-Stepped (tracks conn) s v ok room = track-Stepped out s v (get conn s.conns)
  step-Stepped (untracks conn) s v ok room = untrack-Stepped out s v (get conn s.conns)
  step-Stepped (unregisters conn) s v ok room = unregister-Stepped out s v (get conn s.conns)
  step-Stepped (releases conn) s v ok room =
      release-Stepped out s v (get conn s.conns) (v.names.connected conn)
  step-Stepped (opens n conn world o) s v ok room = elim (Option-cases (get n s.streams)) [
    | inl free ↦
        subst (λ (x : Option Process). Stepped s (open_as out n world o (get conn s.conns) x s))
          (sym free)
          (open-Stepped s v n free out world o (get conn s.conns) (v.names.connected conn))
    | inr (x, taken) ↦
        subst (λ (x : Option Process). Stepped s (open_as out n world o (get conn s.conns) x s))
          (sym taken) (taken-Stepped s v n world o x (get conn s.conns))
  ]
    where
      taken-Stepped :
          (s : System)
          → Safe s
          → (n : ℕ) (world : World) (o : OpenStream) (x : Process) (found : Option Provider)
          → Stepped s (open_as out n world o found (some x) s)
      taken-Stepped s v n world o x none = stay-Stepped s v
      taken-Stepped s v n world o x (some ac) = stay-Stepped s v
  step-Stepped (answers n ack now later consumer_ok provider_ok) s v ok room =
      answer-Stepped out s v n ack now later consumer_ok provider_ok (get n s.streams) refl room
  step-Stepped (comes_back n id self peer) s v ok room = elim (Option-cases (get n s.streams)) [
    | inl free ↦
        subst (λ (x : Option Process). Stepped s (come_back_as out n id self peer x s)) (sym free)
          (come_back-Stepped s v n free out id self peer)
    | inr (x, taken) ↦
        subst (λ (x : Option Process). Stepped s (come_back_as out n id self peer x s)) (sym taken)
          (stay-Stepped s v)
  ]
  step-Stepped (demotes n id self peer prior) s v ok room = elim (Option-cases (get n s.streams)) [
    | inl free ↦
        subst (λ (x : Option Process). Stepped s (demote_as out n id self peer prior x s))
          (sym free) (demote-Stepped s v n free out id self peer prior)
    | inr (x, taken) ↦
        subst (λ (x : Option Process). Stepped s (demote_as out n id self peer prior x s))
          (sym taken) (stay-Stepped s v)
  ]
  step-Stepped (ends n) s v ok room = end-Stepped s v n (get n s.streams) refl
  step-Stepped (control conn remote_addr clock frame) s v ok room =
      control-Stepped out s v (get conn s.conns) remote_addr clock frame
  step-Stepped (resumes id self peer now later) s v ok room =
      resume-Stepped out s v id now later room (get self s.conns) (get peer s.conns) s.relay.forward
        (v.names.connected self) (v.names.connected peer) refl
  step-Stepped (datagram buf src now checked) s v ok room =
      datagram-Stepped out s v buf src now checked s.relay.forward ok refl
  step-Stepped (collects now) s v ok room = collect-Stepped out s v now s.relay.forward refl
  step-Stepped (advertises endpoints) s v ok room =
      (record { names = v.names; allocs = v.allocs; rows = v.rows }, omega arith)
  step-Stepped (watches e m) s v ok room = watch_as-Stepped e m s v s.relay.policy
  step-Stepped ships_audit s v ok room = ship_as-Stepped s v s.relay.audit

  pub run-Safe :
      (acts : List Act) (s : System)
      → Safe s
      → counter_in s.relay.forward ≡ 0
      → All Addressed acts
      → 2 * length acts < u32_mod
      → Safe (run out acts s) × (counter_in (run out acts s).relay.forward ≤ 2 * length acts)
  unfolding run
  run-Safe [] s v zero_start ok few = (v, omega (arith, zero_start))
  run-Safe (a ∷ acts) s v zero_start (ok, rest) few =
      let (w, low) = run-Safe acts s v zero_start rest (omega (arith, few)) in
      let (x, grown) = step-Stepped a (run out acts s) w ok (omega (arith, few, low)) in
      (x, omega (arith, grown, low))

-- ===== src/Edge/System/Calm.antt =====
-- pkg/edge/edge.go, pkg/forward/plane.go: control frames, datagrams and collections, on the tables that all
-- handlers share.
use outrelay_relay.Common.{
  ℕ, Option, none, some, ◌≡◌, Bytes, true, ◌==◌, nat_eq, not, length, if_cases, subst, sym,
}
use outrelay_relay.Registry.{Provider}
use outrelay_relay.Forward.State.{Plane, AddrPort, is_valid, punch_nonce_size}
use outrelay_relay.Forward.Register
use outrelay_relay.Forward.Index.{Inv}
use outrelay_relay.Forward.Invariant.{arm_pending-Inv, receive-Inv}
use outrelay_relay.Forward.Expiry.{gc_once_lem}
use outrelay_relay.Forward.Owners.{gc_once-Keeps, receive-Keeps, arm_pending-Keeps}
use outrelay_relay.Edge.Control.{
  ForwardRegister, ForwardRegisterReject, register_forward, handle_forward_register,
}
use outrelay_relay.Edge.Control.Loop.{
  ControlFrame, register, ping, observed_addr_query, candidate, checkpoint, migrate_to_p2p,
  forward_resume, forward_register, unreadable, unexpected, TurnClock, on_control,
}
use outrelay_relay.Edge.System.{Outside, System, gc_once}
use outrelay_relay.Edge.System.Acts.{control_as, datagram_as, collect_as}
use outrelay_relay.Edge.System.Allocs.{Sound, Shrinks-refl, Keeps-Shrinks}
use outrelay_relay.Edge.System.Safe.{Safe, Stepped, stay-Stepped, Calmer, calm-Stepped}

register_forward-Calmer :
    (uri : Bytes) (m : ForwardRegister) (now : ℕ) (p : Plane)
    → Inv p
    → Calmer (some p) (some (register_forward uri m now p).1)
unfolding register_forward
register_forward-Calmer uri m now p ok =
    if_cases (λ (r : Option ForwardRegisterReject × Plane). Calmer (some p) (some r.1))
      (not (length m.punch_nonce == punch_nonce_size)) _ _ (λ short. (Shrinks-refl (some p), ok))
      λ long. (
        Keeps-Shrinks p _ (arm_pending-Keeps p m.alloc_id now uri m.punch_nonce),
        arm_pending-Inv p ok m.alloc_id uri m.punch_nonce now,
      )

handle_forward_register-Calmer :
    (uri : Bytes) (m : ForwardRegister) (now : ℕ) (f : Option Plane)
    → Sound f
    → Calmer f (handle_forward_register uri m now f).1
unfolding handle_forward_register
handle_forward_register-Calmer uri m now none ok = (Shrinks-refl none, ok)
handle_forward_register-Calmer uri m now (some p) ok = register_forward-Calmer uri m now p ok

module _ (out : Outside) (s : System) (v : Safe s) where
  frame-Stepped :
      (ac : Provider) (remote_addr : Bytes) (clock : TurnClock) (frame : ControlFrame)
      → Stepped s (control_as out remote_addr clock frame (some ac) s)
  unfolding control_as on_control
  frame-Stepped ac remote_addr clock (register m) = stay-Stepped s v
  frame-Stepped ac remote_addr clock ping = stay-Stepped s v
  frame-Stepped ac remote_addr clock (observed_addr_query id) = stay-Stepped s v
  frame-Stepped ac remote_addr clock (candidate id bytes) = stay-Stepped s v
  frame-Stepped ac remote_addr clock (checkpoint id bytes) = stay-Stepped s v
  frame-Stepped ac remote_addr clock (migrate_to_p2p id) =
      let (w, grown) = stay-Stepped s v in
      (record { names = w.names; allocs = w.allocs; rows = w.rows }, grown)
  frame-Stepped ac remote_addr clock (forward_resume id) = stay-Stepped s v
  frame-Stepped ac remote_addr clock (forward_register m) =
      let (w, grown) =
        calm-Stepped s v _
          (handle_forward_register-Calmer ac.uri m clock.now s.relay.forward v.allocs.sound) in
      (record { names = w.names; allocs = w.allocs; rows = w.rows }, grown)
  frame-Stepped ac remote_addr clock unreadable = stay-Stepped s v
  frame-Stepped ac remote_addr clock unexpected = stay-Stepped s v

  pub control-Stepped :
      (found : Option Provider) (remote_addr : Bytes) (clock : TurnClock) (frame : ControlFrame)
      → Stepped s (control_as out remote_addr clock frame found s)
  unfolding control_as
  control-Stepped none remote_addr clock frame = stay-Stepped s v
  control-Stepped (some ac) remote_addr clock frame = frame-Stepped ac remote_addr clock frame

  pub datagram-Stepped :
      (buf : Bytes) (src : AddrPort) (now checked : ℕ) (f : Option Plane)
      → is_valid src ≡ true
      → s.relay.forward ≡ f
      → Stepped s (datagram_as out buf src now checked f s)
  unfolding datagram_as
  datagram-Stepped buf src now checked none known e = stay-Stepped s v
  datagram-Stepped buf src now checked (some p) known e = calm-Stepped s v _ (
      subst (λ (f : Option Plane). Calmer f (some (Register.receive buf src now checked p).0))
        (sym e)
        (
          Keeps-Shrinks p _ (receive-Keeps buf src now checked p),
          receive-Inv p (subst Sound e v.allocs.sound) buf src now checked known,
        ))

  pub collect-Stepped :
      (now : ℕ) (f : Option Plane) → s.relay.forward ≡ f → Stepped s (collect_as out now f s)
  unfolding collect_as
  collect-Stepped now none e = stay-Stepped s v
  collect-Stepped now (some p) e = calm-Stepped s v _ (
      subst (λ (f : Option Plane). Calmer f (some (gc_once now p))) (sym e)
        (
          Keeps-Shrinks p _ (gc_once-Keeps now p),
          (gc_once_lem p now (subst Sound e v.allocs.sound)).0,
        ))

-- ===== src/Edge/Control.antt =====
-- pkg/edge/edge.go: the frames of an agent's control stream that change the relay: REGISTER,
-- FORWARD_REGISTER and MIGRATE_TO_P2P, and the timer of a required promotion. `parse_tenant` stands for
-- `identity.Parse`; what the controller answers is an argument.
pub mod Loop
pub mod Replies
mod Samples
pub mod Promotion
use outrelay_relay.Forward.State.{
  Plane, ArmError, err_unknown_alloc, err_owner_mismatch, punch_nonce_size,
}
use outrelay_relay.Forward.Register.{arm_pending}
use outrelay_relay.Registry.{
  Registry, Provider, RegisterServiceRequest, Registration, registered, refused, register_service,
}
use outrelay_relay.Edge.Pairs.{Pairs, StreamPair}
use outrelay_relay.Edge.Migrated.{MigratedStream, MigratedLru, note, lookup_migrated}
use outrelay_relay.Common.{
  ◌∷◌, none, some, Bytes, ℕ, Option, get, List, some, if◌then◌else◌, [], nat_eq, none, codes, not,
  ◌==◌, length, bytes_eq,
}

-- `orpv1.Register`
pub record Register : Type 0 where
  pub service_name : Bytes
  pub local_addr : Bytes

-- What the agent is told: an acknowledgement, or that its link is closed.
pub data RegisterReply : Type 0 where
  register_ack : Bytes → RegisterReply
  link_closed : RegisterReply

unfoldable pub reply_register : Registration → RegisterReply
reply_register (registered id) = register_ack id
reply_register (refused err) = link_closed

unfoldable pub handle_register :
    (Bytes → Option Bytes)
    → (RegisterServiceRequest → Option Bytes)
    → Provider
    → Register
    → Registry
    → RegisterReply
unfolding reply_register
handle_register parse_tenant controller ac m reg =
    reply_register (register_service parse_tenant controller ac.uri m.service_name m.local_addr reg)

-- `orpv1.ForwardRegister`
pub record ForwardRegister : Type 0 where
  pub alloc_id : ℕ
  pub punch_nonce : Bytes

-- `orpv1.ForwardRegisterReject`
pub record ForwardRegisterReject : Type 0 where
  pub alloc_id : ℕ
  pub reason : Bytes

-- An accepted registration has no answer.
unfoldable pub arm_reply : ℕ → Option ArmError → Option ForwardRegisterReject
arm_reply alloc_id none = none
arm_reply alloc_id (some err_unknown_alloc) =
    some (record { alloc_id = alloc_id; reason = codes "unknown_alloc" })
arm_reply alloc_id (some err_owner_mismatch) =
    some (record { alloc_id = alloc_id; reason = codes "owner_mismatch" })

unfoldable pub register_forward :
    Bytes → ForwardRegister → ℕ → Plane → Option ForwardRegisterReject × Plane
unfolding arm_reply
register_forward uri m now p =
    if not (length m.punch_nonce == punch_nonce_size)
    then (some (record { alloc_id = m.alloc_id; reason = codes "bad_nonce" }), p)
    else (let (q, err) = arm_pending m.alloc_id uri m.punch_nonce now p in
        (arm_reply m.alloc_id err, q))

unfoldable pub handle_forward_register :
    Bytes → ForwardRegister → ℕ → Option Plane → Option ForwardRegisterReject × Option Plane
unfolding register_forward
handle_forward_register uri m now none =
    (some (record { alloc_id = m.alloc_id; reason = codes "forward_plane_disabled" }), none)
handle_forward_register uri m now (some p) =
    let (reply, q) = register_forward uri m now p in (reply, some q)

-- The two names that a promoted stream is noted with.
unfoldable pub known_pair : Bytes → Option StreamPair → StreamPair
known_pair uri none = record { consumer_uri = uri; provider_uri = [] }
known_pair uri (some p) =
    if p.consumer_uri == []
    then record p { consumer_uri = uri }
    else if p.provider_uri == []
    then record p { provider_uri = uri }
    else p

-- The clock is read for the entry and again for the sweep.
unfoldable pub handle_migrate_to_p2p : Bytes → ℕ → ℕ → ℕ → Pairs → MigratedLru → MigratedLru
unfolding known_pair
handle_migrate_to_p2p uri stream_id stamp now pairs m =
    let pair = known_pair uri (get stream_id pairs) in
    note
      (record {
        id = stream_id;
        consumer_uri = pair.consumer_uri;
        provider_uri = pair.provider_uri;
        migrated_at = 0;
      })
      stamp now m

-- What the `select` of `enforceRequiredPromotion` takes next.
pub data Wakeup : Type 0 where
  stream_ended : Wakeup
  ticked : ℕ → MigratedLru → Wakeup
  deadline_passed : Wakeup

-- How the loop ends: it returns, it closes the consumer's stream, or it still waits.
pub data Verdict : Type 0 where
  left closed_stream still_waiting : Verdict

-- The loop over the wakeups in their order, a tick with the table of migrated streams as it then stands.
unfoldable pub enforce_required_promotion : ℕ → List Wakeup → Verdict
enforce_required_promotion stream_id [] = still_waiting
enforce_required_promotion stream_id (stream_ended ∷ rest) = left
enforce_required_promotion stream_id (deadline_passed ∷ rest) = closed_stream
enforce_required_promotion stream_id (ticked now m ∷ rest) =
    let later = enforce_required_promotion stream_id rest in
    elim (lookup_migrated stream_id now m).0 [ none ↦ later | some s ↦ left ]

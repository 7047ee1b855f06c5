-- ===== src/Edge/Control/Replies.antt =====
-- pkg/edge/edge.go: what `handleForwardRegister` answers.
use outrelay_relay.Forward.State.{Plane, punch_nonce_size, owner_of}
use outrelay_relay.Forward.Register.{arm_pending, arm_entry}
use outrelay_relay.Edge.Control.{
  ForwardRegister, ForwardRegisterReject, arm_reply, register_forward, handle_forward_register,
  Bytes,
}
use outrelay_relay.Common.{
  Bytes, ℕ, length, some, ◌≡◌, ◌≢◌, none, [], ◌↔◌, arith, eq_iff, bytes_eq, Option-cases, get, inl,
  inr, nat_eq,
}

module _ (uri : Bytes) (m : ForwardRegister) (now : ℕ) (p : Plane) where
  -- On a relay with a forwarding plane a FORWARD_REGISTER is not rejected exactly when its nonce
  -- has the right length, the agent's name is not empty and the agent owns the allocation; a
  -- rejected one leaves the plane as it was.
  pub forward_register_lem :
      let answer = handle_forward_register uri m now (some p) in
      ((answer.0 ≡ none) ↔ (
        (length m.punch_nonce ≡ punch_nonce_size)
        × (uri ≢ [])
        × (owner_of m.alloc_id p ≡ some uri)))
      × ((reason : ForwardRegisterReject) → answer.0 ≡ some reason → answer.1 ≡ some p)
  unfolding handle_forward_register register_forward arm_pending arm_entry arm_reply owner_of
  forward_register_lem = elim (Option-cases (get m.alloc_id p.by_alloc)) [
    | inl missing ↦ (ground (arith, missing, eq_iff uri []), λ reason e. ground (arith, missing, e))
    | inr (entry, found) ↦ (
      ground (arith, found, eq_iff uri [], eq_iff entry.uri uri),
      λ reason e. ground (arith, found, e),
    )
  ]

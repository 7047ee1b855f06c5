-- ===== src/Policy/Wire.antt =====
-- pkg/policy/matcher.go: `FromPB`. The numbers of the generated package `control/v1` are a parameter.
use outrelay_relay.Common.{ℕ, if◌then◌else◌, ◌==◌, nat_eq, Bytes, Option}
use outrelay_relay.Policy.Rules.{
  Rule, Decision, P2pMode, RelayMode, deny, allow, allowed, forbidden, required, splice, forward,
}

-- The constants of the generated code that the program compares with.
pub record Constants : Type 0 where
  pub decision_deny : ℕ
  pub p2p_forbidden : ℕ
  pub p2p_required : ℕ
  pub relay_mode_forward : ℕ
  pub kind_added : ℕ
  pub kind_removed : ℕ
  pub kind_snapshot_end : ℕ

-- `pb.PolicyRule`, as far as it is read.
pub record PolicyRule : Type 0 where
  pub id : Bytes
  pub caller_pattern : Bytes
  pub target_pattern : Bytes
  pub method_pattern : Bytes
  pub decision : ℕ
  pub expires_unix_ms : ℕ
  pub p2p_mode : ℕ
  pub relay_mode : ℕ

-- `pb.PolicyEvent`; a rule that is `nil` is `none`.
pub record PolicyEvent : Type 0 where
  pub kind : ℕ
  pub rule : Option PolicyRule
  pub removed_id : Bytes

module _ (pb : Constants) where
  unfoldable pub p2p_mode_from_pb : ℕ → P2pMode
  p2p_mode_from_pb m =
      if m == pb.p2p_forbidden
      then forbidden
      else if m == pb.p2p_required
      then required
      else allowed

  unfoldable pub relay_mode_from_pb : ℕ → RelayMode
  relay_mode_from_pb m = if m == pb.relay_mode_forward then forward else splice

  unfoldable pub decision_from_pb : ℕ → Decision
  decision_from_pb d = if d == pb.decision_deny then deny else allow

  unfoldable pub from_pb : PolicyRule → Rule
  from_pb r = record {
    id = r.id;
    caller_pattern = r.caller_pattern;
    target_pattern = r.target_pattern;
    method_pattern = r.method_pattern;
    decision = decision_from_pb r.decision;
    expires_unix_ms = r.expires_unix_ms;
    p2p_mode = p2p_mode_from_pb r.p2p_mode;
    relay_mode = relay_mode_from_pb r.relay_mode;
  }

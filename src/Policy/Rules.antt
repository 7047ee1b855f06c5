-- ===== src/Policy/Rules.antt =====
-- pkg/policy/matcher.go: decisions, modes and rules. A rule's deadline that is not positive is 0.
use Prim.Native.Nat.{max}
use outrelay_relay.Common.{
  ℕ, Bool, ◌||◌, if◌then◌else◌, nat_eq, Bytes, true, ◌≡◌, false, arith, codes,
}

pub data Decision : Type 0 where
  deny allow : Decision

pub data RelayMode : Type 0 where
  splice forward : RelayMode

pub data P2pMode : Type 0 where
  allowed forbidden required : P2pMode

-- The `String` methods.
unfoldable pub decision_name : Decision → Bytes
decision_name allow = codes "allow"
decision_name deny = codes "deny"

unfoldable pub relay_mode_name : RelayMode → Bytes
relay_mode_name forward = codes "forward"
relay_mode_name splice = codes "splice"

unfoldable pub p2p_mode_name : P2pMode → Bytes
p2p_mode_name forbidden = codes "forbidden"
p2p_mode_name required = codes "required"
p2p_mode_name allowed = codes "allowed"

pub record Result : Type 0 where
  pub decision : Decision
  pub reason : Bytes
  pub p2p_mode : P2pMode
  pub relay_mode : RelayMode

is_forbidden : P2pMode → Bool
is_forbidden forbidden = true
is_forbidden _ = false

is_required : P2pMode → Bool
is_required required = true
is_required _ = false

unfoldable pub combine_p2p_modes : P2pMode → P2pMode → P2pMode
unfolding is_forbidden is_required
combine_p2p_modes a b =
    if is_forbidden a || is_forbidden b
    then forbidden
    else if is_required a || is_required b
    then required
    else allowed

pub record Rule : Type 0 where
  pub id : Bytes
  pub caller_pattern : Bytes
  pub target_pattern : Bytes
  pub method_pattern : Bytes
  pub decision : Decision
  pub expires_unix_ms : ℕ
  pub p2p_mode : P2pMode
  pub relay_mode : RelayMode

-- The strictness that the modes are combined by.
abbrev pub rank : P2pMode → ℕ
rank allowed = 0
rank required = 1
rank forbidden = 2

-- The combined mode is the stricter of the two, so neither side can weaken the other's.
pub combine_p2p_modes-max : (a b : P2pMode) → rank (combine_p2p_modes a b) ≡ max (rank a) (rank b)
unfolding combine_p2p_modes
combine_p2p_modes-max a b = ground arith

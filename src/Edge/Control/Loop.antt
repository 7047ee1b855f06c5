-- ===== src/Edge/Control/Loop.antt =====
-- pkg/edge/edge.go: one turn of `controlLoop`, with forwardCandidate, forwardCheckpoint,
-- handleObservedAddrQuery and handleForwardResume. A frame that cannot be read as its type is `unreadable`.
-- `split_host_port` stands for `net.SplitHostPort`, and `atoi` for `strconv.Atoi` on a port.
pub mod Isolation
use outrelay_relay.Forward.State.{Plane}
use outrelay_relay.Registry.{Registry, Provider, RegisterServiceRequest}
use outrelay_relay.Edge.Pairs.{Pairs, route}
use outrelay_relay.Edge.Migrated.{MigratedLru}
use outrelay_relay.Edge.Control.{
  Register, RegisterReply, handle_register, ForwardRegister, ForwardRegisterReject,
  handle_forward_register, handle_migrate_to_p2p, ℕ, Bytes, Option,
}
use outrelay_relay.Common.{ℕ, Bytes, Option, some, none, ◌%◌, ◌^◌}

-- A candidate and a checkpoint keep the bytes of their frame.
pub data ControlFrame : Type 0 where
  register : Register → ControlFrame
  ping : ControlFrame
  observed_addr_query : ℕ → ControlFrame
  candidate checkpoint : ℕ → Bytes → ControlFrame
  migrate_to_p2p : ℕ → ControlFrame
  forward_resume : ℕ → ControlFrame
  forward_register : ForwardRegister → ControlFrame
  unreadable unexpected : ControlFrame

-- `orpv1.ObservedAddrResp`
pub record ObservedAddrResp : Type 0 where
  pub request_id : ℕ
  pub ip : Bytes
  pub port : ℕ

-- What the turn does besides the tables: it answers the agent, writes a frame to the connection of the
-- other agent, or submits a half to the forward resume matcher.
pub data Effect : Type 0 where
  silent : Effect
  answers_register : RegisterReply → Effect
  pong : Effect
  observed : ObservedAddrResp → Effect
  passed_on : Provider → Bytes → Effect
  rejects : ForwardRegisterReject → Effect
  submits_half : ℕ → Effect

-- The tables that a control frame may read or change.
pub record Tables : Type 0 where
  pub reg : Registry
  pub pairs : Pairs
  pub migrated : MigratedLru
  pub forward : Option Plane

-- The clock readings of a turn.
pub record TurnClock : Type 0 where
  pub stamp : ℕ
  pub now : ℕ

abbrev pub pass_on : Option Provider → Bytes → Effect
pass_on none frame = silent
pass_on (some peer) frame = passed_on peer frame

-- A frame that is not readable as its type is `unreadable` below; the frame is passed on as it came.
unfoldable pub forward_candidate : Provider → ℕ → Bytes → Pairs → Registry → Effect
forward_candidate from stream_id frame pairs reg =
    pass_on (route stream_id from.uri pairs reg) frame

unfoldable pub forward_checkpoint : Provider → ℕ → Bytes → Pairs → Registry → Effect
forward_checkpoint from stream_id frame pairs reg =
    pass_on (route stream_id from.uri pairs reg) frame

abbrev pub reject_or_silent : Option ForwardRegisterReject → Effect
reject_or_silent none = silent
reject_or_silent (some reason) = rejects reason

unfoldable pub handle_forward_resume : ℕ → Option Plane → Effect
handle_forward_resume stream_id none = silent
handle_forward_resume stream_id (some p) = submits_half stream_id

module _ (parse_tenant : Bytes → Option Bytes) (controller : RegisterServiceRequest → Option Bytes)
    (split_host_port : Bytes → Option (Bytes × Bytes)) (atoi : Bytes → Option ℕ) where
  unfoldable pub split_addr : Bytes → Option (Bytes × ℕ)
  split_addr s = elim (split_host_port s) [
    | none ↦ none
    | some parts ↦ elim (atoi parts.1) [ none ↦ none | some port ↦ some (parts.0, port) ]
  ]

  unfoldable pub handle_observed_addr : Bytes → ℕ → Effect
  unfolding split_addr
  handle_observed_addr remote_addr request_id = elim (split_addr remote_addr) [
    | none ↦ silent
    | some addr ↦ observed (record { request_id = request_id; ip = addr.0; port = addr.1 % 2 ^ 32 })
  ]

  -- `remote_addr` is the address of the agent's connection.
  unfoldable pub on_control : Provider → Bytes → TurnClock → ControlFrame → Tables → Effect × Tables
  unfolding handle_observed_addr handle_forward_resume forward_candidate forward_checkpoint
  on_control ac remote_addr clock (register m) t =
      (answers_register (handle_register parse_tenant controller ac m t.reg), t)
  on_control ac remote_addr clock ping t = (pong, t)
  on_control ac remote_addr clock (observed_addr_query id) t =
      (handle_observed_addr remote_addr id, t)
  on_control ac remote_addr clock (candidate stream_id frame) t =
      (forward_candidate ac stream_id frame t.pairs t.reg, t)
  on_control ac remote_addr clock (checkpoint stream_id frame) t =
      (forward_checkpoint ac stream_id frame t.pairs t.reg, t)
  on_control ac remote_addr clock (migrate_to_p2p stream_id) t = (
    silent,
    record t {
      migrated = handle_migrate_to_p2p ac.uri stream_id clock.stamp clock.now t.pairs t.migrated;
    },
  )
  on_control ac remote_addr clock (forward_resume stream_id) t =
      (handle_forward_resume stream_id t.forward, t)
  on_control ac remote_addr clock (forward_register m) t =
      let (reply, plane) = handle_forward_register ac.uri m clock.now t.forward in
      (reject_or_silent reply, record t { forward = plane })
  on_control ac remote_addr clock unreadable t = (silent, t)
  on_control ac remote_addr clock unexpected t = (silent, t)

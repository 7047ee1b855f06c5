-- ===== src/Edge/Drain.antt =====
-- pkg/edge/edge.go: `Drain`, the planned relocation of every agent.
pub mod Endpoint
pub mod Relocation
mod Samples
use outrelay_relay.Registry.{Provider}
use outrelay_relay.Common.{
  List, ℕ, Bytes, ◌^◌, ◌/◌, Bool, ◌∷◌, ◌-◌, if◌then◌else◌, [], ltb, length, ◌==◌, nat_eq,
}

-- `orpv1.Goaway`
pub record Goaway : Type 0 where
  pub target_endpoints : List Bytes
  pub reason : Bytes
  pub deadline_ms : ℕ

abbrev pub millisecond : ℕ
millisecond = 1_000_000

abbrev pub max_u32 : ℕ
max_u32 = 2 ^ 32 - 1

-- `min(deadline.Milliseconds(), math.MaxUint32)` of a deadline in nanoseconds that is not negative.
unfoldable pub clamp_ms : ℕ → ℕ
clamp_ms deadline = let ms = deadline / millisecond in if ltb ms max_u32 then ms else max_u32

unfoldable pub goaway : List Bytes → List Bytes → Bytes → ℕ → Goaway
unfolding clamp_ms
goaway targets successors reason deadline = record {
  target_endpoints = if length targets == 0 then successors else targets;
  reason = reason;
  deadline_ms = clamp_ms deadline;
}

-- The frames that were written, each with its connection, and the connections that were closed.
pub record Notices : Type 0 where
  pub told : List (ℕ × Goaway)
  pub closed : List ℕ

-- `writable` says of a control stream whether the frame can be written.
unfoldable pub notify : (ℕ → Bool) → Goaway → List Provider → Notices
notify writable g [] = record { told = []; closed = [] }
notify writable g (ac ∷ agents) =
    let rest = notify writable g agents in
    if writable ac.conn
    then record rest { told = (ac.conn, g) ∷ rest.told }
    else record rest { closed = ac.conn ∷ rest.closed }

-- What the `select` takes.
pub data DrainEvent : Type 0 where
  cancelled timed_out polled : DrainEvent

pub data DrainEnd : Type 0 where
  relocated given_up : DrainEnd
  forced : List ℕ → DrainEnd
  still_draining : DrainEnd

unfoldable pub conns_of : List Provider → List ℕ
conns_of [] = []
conns_of (ac ∷ agents) = ac.conn ∷ conns_of agents

-- The loop, over the live agents at each turn and what the `select` then takes.
unfoldable pub wait_for_agents : List (List Provider × DrainEvent) → DrainEnd
unfolding conns_of
wait_for_agents [] = still_draining
wait_for_agents (([], event) ∷ turns) = relocated
wait_for_agents ((ac ∷ agents, cancelled) ∷ turns) = given_up
wait_for_agents ((ac ∷ agents, timed_out) ∷ turns) = forced (conns_of (ac ∷ agents))
wait_for_agents ((ac ∷ agents, polled) ∷ turns) = wait_for_agents turns

unfoldable pub drain :
    (ℕ → Bool)
    → List Bytes
    → List Bytes
    → Bytes
    → ℕ
    → List Provider
    → List (List Provider × DrainEvent)
    → Notices × DrainEnd
unfolding goaway notify wait_for_agents
drain writable targets successors reason deadline agents turns =
    (notify writable (goaway targets successors reason deadline) agents, wait_for_agents turns)

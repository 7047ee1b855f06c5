-- ===== src/Edge/Sessions.antt =====
-- pkg/edge/edge.go: what `serveConn` does with the tables of the relay when an agent has said HELLO and
-- when its connection ends; `parse_tenant` stands for `identity.Parse`.
pub mod Phases
pub mod Liveness
use outrelay_relay.Common.{
  ℕ, none, some, [], ◌∷◌, ◌≡◌, arith, refl, Dict, put, del, length, Bytes, Option, List, nat_eq,
}
use outrelay_relay.Forward.State.{Plane}
use outrelay_relay.Forward.Alloc.{forget_agent}
use outrelay_relay.Registry.{
  Registry, Provider, register_agent, unregister_agent, lookup_agent, DeregisterAgentRequest,
}

-- The live connections, the directory, the optional forwarding plane and what was sent to the
-- controller, the newest first.
pub record Server : Type 0 where
  pub agents : Dict ℕ (Unit {0})
  pub reg : Registry
  pub forward : Option Plane
  pub sent : List DeregisterAgentRequest

unfoldable pub track_agent : Provider → Server → Server
track_agent ac s = record s { agents = put ac.conn tt s.agents }

unfoldable pub untrack_agent : Provider → Server → Server
untrack_agent ac s = record s { agents = del ac.conn s.agents }

unfoldable pub agent_count : Server → ℕ
agent_count s = length s.agents

-- `s.reg.RegisterAgent(uri, ac)`
unfoldable pub register_conn : Provider → Server → Server
register_conn ac s = record s { reg = register_agent ac.uri ac s.reg }

-- The two calls in turn, with no other goroutine between them.
unfoldable pub attach : Provider → Server → Server
unfolding track_agent register_conn
attach ac s = track_agent ac (register_conn ac s)

abbrev pub forget_allocs : Bytes → Option Plane → Option Plane
forget_allocs uri none = none
forget_allocs uri (some p) = some (forget_agent uri p).0

abbrev pub also_sent :
    Option DeregisterAgentRequest → List DeregisterAgentRequest → List DeregisterAgentRequest
also_sent none sent = sent
also_sent (some request) sent = request ∷ sent

-- `s.forward.ForgetAgent(uri)`, where there is a plane.
unfoldable pub forget_conn : Provider → Server → Server
forget_conn ac s = record s { forward = forget_allocs ac.uri s.forward }

-- The calls of `serveConn` that take a lock each.
pub data Call : Type 0 where
  registers tracks untracks unregisters forgets : Provider → Call

module _ (parse_tenant : Bytes → Option Bytes) where
  -- `s.reg.UnregisterAgent(ctx, uri)`; what it sends to the controller follows the change of the directory.
  unfoldable pub unregister_conn : Provider → Server → Server
  unregister_conn ac s =
      let (reg, request) = unregister_agent parse_tenant ac.uri s.reg in
      record s { reg = reg; sent = also_sent request s.sent }

  -- The deferred calls of `serveConn` in turn, with no other goroutine between them.
  unfoldable pub detach : Provider → Server → Server
  unfolding untrack_agent unregister_conn forget_conn
  detach ac s = forget_conn ac (unregister_conn ac (untrack_agent ac s))

  unfoldable pub call : Call → Server → Server
  unfolding register_conn track_agent untrack_agent unregister_conn forget_conn
  call (registers ac) s = register_conn ac s
  call (tracks ac) s = track_agent ac s
  call (untracks ac) s = untrack_agent ac s
  call (unregisters ac) s = unregister_conn ac s
  call (forgets ac) s = forget_conn ac s

  -- The calls of all connections, the last one first.
  unfoldable pub after : List Call → Server → Server
  unfolding call
  after [] s = s
  after (c ∷ calls) s = call c (after calls s)

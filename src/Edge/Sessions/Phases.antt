-- ===== src/Edge/Sessions/Phases.antt =====
-- pkg/edge/edge.go: how far `serveConn` of a connection has come, by the calls that it has made.
use outrelay_relay.Common.{
  ℕ, some, [], ◌∷◌, ◌≡◌, arith, ◌≢◌, Bytes, Option, List, nat_eq, bytes_eq, ◌∙◌, if◌then◌else◌,
  ◌==◌,
}
use outrelay_relay.Registry.{Provider}
use outrelay_relay.Edge.Sessions.{Call, registers, tracks, untracks, unregisters, forgets}

-- A connection's name is fixed: `name_of` gives it.
abbrev pub Named : (ℕ → Bytes) → Provider → Type 0
Named name_of ac = ac.uri ≡ name_of ac.conn

-- How far `serveConn` of a connection has come.
pub data Phase : Type 0 where
  outside entering inside leaving gone : Phase

-- The phase of a connection after the calls, the last one first.
unfoldable pub phase_of : ℕ → List Call → Phase
phase_of conn [] = outside
phase_of conn (registers ac ∷ calls) =
    let before = phase_of conn calls in if ac.conn == conn then entering else before
phase_of conn (tracks ac ∷ calls) =
    let before = phase_of conn calls in if ac.conn == conn then inside else before
phase_of conn (untracks ac ∷ calls) =
    let before = phase_of conn calls in if ac.conn == conn then leaving else before
phase_of conn (unregisters ac ∷ calls) =
    let before = phase_of conn calls in if ac.conn == conn then gone else before
phase_of conn (forgets ac ∷ calls) =
    let before = phase_of conn calls in if ac.conn == conn then gone else before

-- A connection makes its calls in the order of `serveConn`, and its name is fixed.
abbrev pub Follows : (ℕ → Bytes) → Call → List Call → Type 0
Follows name_of (registers ac) calls = Named name_of ac × (phase_of ac.conn calls ≡ outside)
Follows name_of (tracks ac) calls = Named name_of ac × (phase_of ac.conn calls ≡ entering)
Follows name_of (untracks ac) calls = Named name_of ac × (phase_of ac.conn calls ≡ inside)
Follows name_of (unregisters ac) calls = Named name_of ac × (phase_of ac.conn calls ≡ leaving)
Follows name_of (forgets ac) calls = Named name_of ac × (phase_of ac.conn calls ≡ gone)

abbrev pub InOrder : (ℕ → Bytes) → List Call → Type 0
InOrder name_of [] = Unit
InOrder name_of (c ∷ calls) = Follows name_of c calls × InOrder name_of calls

-- A connection that is tracked, or that is between the calls on the directory and on the live connections.
pub data Serves (phase : Phase) (tracked : Option (Unit {0})) : Type 0 where
  being_attached : phase ≡ entering → Serves phase tracked
  attached : phase ≡ inside → tracked ≡ some tt → Serves phase tracked
  being_detached : phase ≡ leaving → Serves phase tracked

pub Serves-inside : (phase : Phase) (t : Option (Unit {0})) → Serves phase t → phase ≢ outside
Serves-inside phase t (being_attached e) h = ground (arith, e, h)
Serves-inside phase t (attached e live) h = ground (arith, e, h)
Serves-inside phase t (being_detached e) h = ground (arith, e, h)

pub Serves-ungone : (phase : Phase) (t : Option (Unit {0})) → Serves phase t → phase ≢ gone
Serves-ungone phase t (being_attached e) h = ground (arith, e, h)
Serves-ungone phase t (attached e live) h = ground (arith, e, h)
Serves-ungone phase t (being_detached e) h = ground (arith, e, h)

-- A call of another connection changes neither.
pub Serves-same : {p q : Phase} {t u : Option (Unit {0})} → q ≡ p → u ≡ t → Serves p t → Serves q u
Serves-same e f (being_attached h) = being_attached (e ∙ h)
Serves-same e f (attached h live) = attached (e ∙ h) (f ∙ live)
Serves-same e f (being_detached h) = being_detached (e ∙ h)

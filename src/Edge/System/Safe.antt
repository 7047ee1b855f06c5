-- ===== src/Edge/System/Safe.antt =====
-- pkg/edge/edge.go: the acts that open no stream, and what they leave of the relay's tables.
use outrelay_relay.Common.{
  ◌+◌, ◌≤◌, Option, none, some, ◌≡◌, ◌≢◌, arith, Bytes, put, get-put, get-del, eq_iff, [], refl,
  bytes_eq, nat_eq, subst, sym,
}
use outrelay_relay.Registry.{Provider, lookup_agent, register_agent, unregister_agent}
use outrelay_relay.Forward.State.{Plane}
use outrelay_relay.Forward.Release.{forget_agent_lem}
use outrelay_relay.Forward.Owners.{forget_agent-Keeps}
use outrelay_relay.Edge.Sessions.{
  Server, attach, forget_allocs, track_agent, untrack_agent, register_conn, unregister_conn,
  forget_conn, call, tracks, untracks, unregisters, forgets,
}
use outrelay_relay.Edge.Handshake.{Admission, turned_away, peer_relay, agent}
use outrelay_relay.Edge.System.{Outside, System, server_of, with_server, admitted}
use outrelay_relay.Edge.System.Acts.{call_as}
use outrelay_relay.Edge.System.Allocs.{
  Sound, Shrinks, Shrinks-refl, Keeps-Shrinks, Allocs, shrink-Allocs, counter_in,
}
use outrelay_relay.Edge.System.Rows.{Rows, Names}

-- What holds of the relay at any time.
pub record Safe (s : System) : Type 0 where
  pub names : Names s.conns s.relay.reg s.streams
  pub allocs : Allocs s.relay.forward s.streams s.resumed
  pub rows : Rows s.relay.pairs s.streams

-- Afterwards it holds too, and at most two allocations have been made.
abbrev pub Stepped : System → System → Type 0
Stepped s t = Safe t × (counter_in t.relay.forward ≤ counter_in s.relay.forward + 2)

pub stay-Stepped : (s : System) → Safe s → Stepped s s
stay-Stepped s v = (v, omega arith)

-- The plane has lost allocations at most.
abbrev pub Calmer : Option Plane → Option Plane → Type 0
Calmer f g = Shrinks f g × Sound g

module _ (s : System) (v : Safe s) where
  pub calm-Stepped :
      (g : Option Plane)
      → Calmer s.relay.forward g
      → Stepped s (record s { relay = record s.relay { forward = g } })
  calm-Stepped g (sh, ok) = (
    record {
      names = v.names;
      allocs = shrink-Allocs s.relay.forward s.streams s.resumed v.allocs g sh ok;
      rows = v.rows;
    },
    omega (arith, sh.counter),
  )

  attach-Names :
      (ac : Provider)
      → ac.uri ≢ []
      → Names (put ac.conn ac s.conns) (attach ac (server_of s)).reg s.streams
  unfolding attach track_agent register_conn register_agent lookup_agent
  attach-Names ac named = record {
    connected = λ conn other h.
        ground (arith, get-put ac.conn conn ac s.conns, v.names.connected conn other);
    directory = λ uri other h. ground (
      arith,
      get-put ac.uri uri ac s.relay.reg.agent_conns,
      eq_iff ac.uri uri,
      v.names.directory uri other,
    );
    callers = v.names.callers;
  }

  attach-Stepped :
      (ac : Provider) → ac.uri ≢ [] → Stepped s (admitted (agent ac, attach ac (server_of s)) s)
  unfolding admitted attach track_agent register_conn
  attach-Stepped ac named =
      (record { names = attach-Names ac named; allocs = v.allocs; rows = v.rows }, omega arith)

  pub connect-Stepped :
      (r : Admission × Server)
      → ((ac : Provider) → r.0 ≡ agent ac → (ac.uri ≢ []) × (r.1 ≡ attach ac (server_of s)))
      → (((ac : Provider) → r.0 ≢ agent ac) → r.1 ≡ server_of s)
      → Stepped s (admitted r s)
  unfolding admitted
  connect-Stepped (turned_away, t) as_agent else_kept =
      subst (λ (x : Server). Stepped s (with_server x s))
        (sym (else_kept λ ac e. ground (arith, e))) (stay-Stepped s v)
  connect-Stepped (peer_relay uri, t) as_agent else_kept =
      subst (λ (x : Server). Stepped s (with_server x s))
        (sym (else_kept λ ac e. ground (arith, e))) (stay-Stepped s v)
  connect-Stepped (agent ac, t) as_agent else_kept =
      let (named, e) = as_agent ac refl in
      subst (λ (x : Server). Stepped s (admitted (agent ac, x) s)) (sym e) (attach-Stepped ac named)

forget_allocs-Calmer :
    (uri : Bytes) (f : Option Plane) → uri ≢ [] → Sound f → Calmer f (forget_allocs uri f)
forget_allocs-Calmer uri none named ok = (Shrinks-refl none, ok)
forget_allocs-Calmer uri (some p) named ok =
    (Keeps-Shrinks p _ (forget_agent-Keeps uri p), (forget_agent_lem p uri ok named).0)

module _ (out : Outside) (s : System) (v : Safe s) where
  unregister-Names :
      (ac : Provider)
      → Names s.conns (unregister_conn out.parse_tenant ac (server_of s)).reg s.streams
  unfolding unregister_conn unregister_agent lookup_agent
  unregister-Names ac = record {
    connected = v.names.connected;
    directory = λ uri other h.
        v.names.directory uri other (ground (arith, get-del ac.uri uri s.relay.reg.agent_conns));
    callers = v.names.callers;
  }

  pub track-Stepped : (found : Option Provider) → Stepped s (call_as out tracks found s)
  unfolding call_as call track_agent
  track-Stepped none = stay-Stepped s v
  track-Stepped (some ac) =
      (record { names = v.names; allocs = v.allocs; rows = v.rows }, omega arith)

  pub untrack-Stepped : (found : Option Provider) → Stepped s (call_as out untracks found s)
  unfolding call_as call untrack_agent
  untrack-Stepped none = stay-Stepped s v
  untrack-Stepped (some ac) =
      (record { names = v.names; allocs = v.allocs; rows = v.rows }, omega arith)

  pub unregister-Stepped : (found : Option Provider) → Stepped s (call_as out unregisters found s)
  unfolding call_as call unregister_conn
  unregister-Stepped none = stay-Stepped s v
  unregister-Stepped (some ac) =
      (record { names = unregister-Names ac; allocs = v.allocs; rows = v.rows }, omega arith)

  pub release-Stepped :
      (found : Option Provider)
      → ((ac : Provider) → found ≡ some ac → ac.uri ≢ [])
      → Stepped s (call_as out forgets found s)
  unfolding call_as call forget_conn
  release-Stepped none named = stay-Stepped s v
  release-Stepped (some ac) named =
      let (calm, ok) = forget_allocs-Calmer ac.uri s.relay.forward (named ac refl) v.allocs.sound in
      (
        record {
          names = v.names;
          allocs = shrink-Allocs s.relay.forward s.streams s.resumed v.allocs _ calm ok;
          rows = v.rows;
        },
        omega (arith, calm.counter),
      )

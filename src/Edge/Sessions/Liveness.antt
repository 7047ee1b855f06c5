-- ===== src/Edge/Sessions/Liveness.antt =====
-- pkg/edge/edge.go: whether the directory and the live connections agree.
use mathlib.Core.Path.{ap₂, ap, subst, sym}
use outrelay_relay.Common.{
  ℕ, none, some, [], ◌∷◌, ◌≡◌, arith, ◌≢◌, Bytes, get, Option, get-put, get-del, List, nat_eq,
  eq_iff, put, eq_refl, bytes_eq, ◌∙◌, Bool-cases, ◌==◌, inl, inr, false, true, ap, subst, refl,
  sym,
}
use outrelay_relay.Forward.State.{Plane}
use outrelay_relay.Forward.Index.{Inv}
use outrelay_relay.Forward.Release.{forget_agent_lem, forgotten}
use outrelay_relay.Forward.Alloc.{forget_agent}
use outrelay_relay.Registry.{Provider, register_agent, unregister_agent, lookup_agent}
use outrelay_relay.Edge.Sessions.{
  Server, Call, registers, tracks, untracks, unregisters, forgets, attach, detach, after, call,
  track_agent, untrack_agent, register_conn, unregister_conn, forget_conn, forget_allocs,
}
use outrelay_relay.Edge.Sessions.Phases.{
  Named, Phase, phase_of, Follows, InOrder, Serves, being_attached, attached, being_detached,
  Serves-inside, Serves-ungone, Serves-same,
}

-- What the directory gives out under a name.
abbrev Linked : (ℕ → Bytes) → List Call → Server → Type 0
Linked name_of calls s =
    (uri : Bytes) (ac : Provider)
    → lookup_agent uri s.reg ≡ some ac
    → (ac.uri ≡ uri) × Named name_of ac × Serves (phase_of ac.conn calls) (get ac.conn s.agents)

module _ (parse_tenant : Bytes → Option Bytes) (name_of : ℕ → Bytes) (calls : List Call)
    (s : Server) (v : Linked name_of calls s) where
  apart : (a ac : Provider) → (a.conn ≡ ac.conn → ⊥) → (a.conn == ac.conn) ≡ false
  apart a ac differ = ground (arith, differ, eq_iff a.conn ac.conn)

  phase_at : {c d : ℕ} {p : Phase} → c ≡ d → phase_of c calls ≡ p → phase_of d calls ≡ p
  phase_at e h = ap (λ c. phase_of c calls) (sym e) ∙ h

  found_new :
      (a : Provider) (uri : Bytes) (ac : Provider)
      → (a.uri == uri) ≡ true
      → lookup_agent uri (register_conn a s).reg ≡ some ac
      → a ≡ ac
  unfolding register_conn register_agent lookup_agent
  found_new a uri ac same h = ground (arith, h, get-put a.uri uri a s.reg.agent_conns, same)

  registers-Linked :
      (a : Provider)
      → Follows name_of (registers a) calls
      → Linked name_of (registers a ∷ calls) (register_conn a s)
  unfolding register_conn register_agent lookup_agent phase_of
  registers-Linked a (named, new) uri ac h = elim (Bool-cases (a.uri == uri)) [
    | inl same ↦
        subst
          (λ (x : Provider).
            (x.uri ≡ uri)
            × Named name_of x
            × Serves (phase_of x.conn (registers a ∷ calls)) (get x.conn s.agents))
          (found_new a uri ac same h)
          ((eq_iff a.uri uri).0 same, named, being_attached (ground (arith, eq_refl a.conn)))
    | inr other ↦
        let (at_uri, fixed, serves) =
          v uri ac (ground (arith, h, get-put a.uri uri a s.reg.agent_conns, other)) in
        (
          at_uri,
          fixed,
          Serves-same (ground (arith, apart a ac λ e. Serves-inside _ _ serves (phase_at e new)))
              refl serves,
        )
  ]

  tracks-Linked :
      (a : Provider)
      → Follows name_of (tracks a) calls
      → Linked name_of (tracks a ∷ calls) (track_agent a s)
  unfolding track_agent phase_of
  tracks-Linked a (named, here) uri ac h =
      let (at_uri, fixed, serves) = v uri ac h in
      (
        at_uri,
        fixed,
        elim (Bool-cases (a.conn == ac.conn)) [
          | inl same ↦
              attached (ground (arith, same))
                (ground (arith, same, get-put a.conn ac.conn tt s.agents, eq_iff a.conn ac.conn))
          | inr other ↦
              Serves-same (ground (arith, other))
                (ground (arith, other, get-put a.conn ac.conn tt s.agents, eq_iff a.conn ac.conn))
                serves
        ],
      )

  untracks-Linked :
      (a : Provider)
      → Follows name_of (untracks a) calls
      → Linked name_of (untracks a ∷ calls) (untrack_agent a s)
  unfolding untrack_agent phase_of
  untracks-Linked a (named, here) uri ac h =
      let (at_uri, fixed, serves) = v uri ac h in
      (
        at_uri,
        fixed,
        elim (Bool-cases (a.conn == ac.conn)) [
          | inl same ↦ being_detached (ground (arith, same))
          | inr other ↦
              Serves-same (ground (arith, other))
                (ground (arith, other, get-del a.conn ac.conn s.agents, eq_iff a.conn ac.conn))
                serves
        ],
      )

  unregisters-Linked :
      (a : Provider)
      → Follows name_of (unregisters a) calls
      → Linked name_of (unregisters a ∷ calls) (unregister_conn parse_tenant a s)
  unfolding unregister_conn unregister_agent lookup_agent phase_of
  unregisters-Linked a (named, here) uri ac h =
      let kept = get-del a.uri uri s.reg.agent_conns in
      let (at_uri, fixed, serves) = v uri ac (ground (arith, h, kept)) in
      let differs : a.uri ≢ uri = λ e. ground (arith, h, kept, e, eq_iff a.uri uri) in
      let other = apart a ac λ e. differs (named ∙ ap name_of e ∙ sym fixed ∙ at_uri) in
      (at_uri, fixed, Serves-same (ground (arith, other)) refl serves)

  forgets-Linked :
      (a : Provider)
      → Follows name_of (forgets a) calls
      → Linked name_of (forgets a ∷ calls) (forget_conn a s)
  unfolding forget_conn phase_of
  forgets-Linked a (named, here) uri ac h =
      let (at_uri, fixed, serves) = v uri ac h in
      let other = apart a ac λ e. Serves-ungone _ _ serves (phase_at e here) in
      (at_uri, fixed, Serves-same (ground (arith, other)) refl serves)

module _ (parse_tenant : Bytes → Option Bytes) (name_of : ℕ → Bytes) where
  call-Linked :
      (c : Call) (calls : List Call) (s : Server)
      → Linked name_of calls s
      → Follows name_of c calls
      → Linked name_of (c ∷ calls) (call parse_tenant c s)
  unfolding call
  call-Linked (registers a) calls s v ok = registers-Linked parse_tenant name_of calls s v a ok
  call-Linked (tracks a) calls s v ok = tracks-Linked parse_tenant name_of calls s v a ok
  call-Linked (untracks a) calls s v ok = untracks-Linked parse_tenant name_of calls s v a ok
  call-Linked (unregisters a) calls s v ok = unregisters-Linked parse_tenant name_of calls s v a ok
  call-Linked (forgets a) calls s v ok = forgets-Linked parse_tenant name_of calls s v a ok

  -- From an empty directory on, let the handlers of any connections, each with a fixed name, call
  -- RegisterAgent, trackAgent, untrackAgent, UnregisterAgent and ForgetAgent, each handler in this
  -- order and the calls of different handlers interleaved in any way. What the directory gives out
  -- under a name is a connection of that name, and it is tracked as live, or its handler is
  -- between RegisterAgent and trackAgent, or between untrackAgent and UnregisterAgent.
  pub lookup_is_live :
      (calls : List Call) (s : Server)
      → s.reg.agent_conns ≡ []
      → InOrder name_of calls
      → (uri : Bytes) (ac : Provider) → lookup_agent uri (after parse_tenant calls s).reg ≡ some ac
      → (ac.uri ≡ uri)
        × Named name_of ac
        × Serves (phase_of ac.conn calls) (get ac.conn (after parse_tenant calls s).agents)
  unfolding after lookup_agent get
  lookup_is_live [] s empty ordered uri ac h = absurd (ground (arith, h))
  lookup_is_live (c ∷ calls) s empty (ok, ordered) uri ac h =
      call-Linked c calls (after parse_tenant calls s) (lookup_is_live calls s empty ordered) ok uri
        ac h

-- When an agent has reconnected and its former connection ends afterwards, the new connection is
-- live, but the directory has lost it and every forward allocation of the agent is released, those
-- of the new connection included.
pub late_detach_loses_agent :
    (parse_tenant : Bytes → Option Bytes) (old new : Provider) (s : Server) (p : Plane)
    → old.uri ≡ new.uri
    → old.conn ≢ new.conn
    → new.uri ≢ []
    → s.forward ≡ some p
    → Inv p
    → let left = detach parse_tenant old (attach new s) in
      (get new.conn left.agents ≡ some tt)
      × (lookup_agent new.uri left.reg ≡ none)
      × (q : Plane) × (left.forward ≡ some q)
      × ((id : ℕ) → get id q.by_alloc ≡ forgotten new.uri (get id p.by_alloc))
unfolding attach track_agent register_conn register_agent lookup_agent detach untrack_agent
    unregister_conn unregister_agent forget_conn
late_detach_loses_agent parse_tenant old new s p same other named on v = (
  ground (
    arith,
    get-del old.conn new.conn (put new.conn tt s.agents),
    get-put new.conn new.conn tt s.agents,
    eq_iff old.conn new.conn,
    eq_refl new.conn,
  ),
  ground
      (arith, get-del old.uri new.uri (put new.uri new s.reg.agent_conns), eq_iff old.uri new.uri),
  (forget_agent new.uri p).0,
  ap₂ forget_allocs same on,
  (forget_agent_lem p new.uri v named).1,
)

-- ===== src/Edge/Drain/Relocation.antt =====
-- pkg/edge/edge.go: `Drain` leaves no agent behind that is neither told nor closed.
use outrelay_relay.Registry.{Provider}
use outrelay_relay.Edge.Drain.{
  Goaway, max_u32, clamp_ms, goaway, Notices, notify, DrainEvent, cancelled, timed_out, polled,
  relocated, forced, conns_of, wait_for_agents, drain, ℕ, List,
}
use outrelay_relay.Common.{
  ℕ, List, Bool, Elem, ◌≢◌, All, ◌⊎◌, ◌≡◌, ◌∷◌, [], Bytes, if_cases, inl, ◌++◌, ◌≤◌, ap, arith, inr,
  refl,
}

module _ (writable : ℕ → Bool) (g : Goaway) where
  notify-Elem :
      (agents : List Provider) (ac : Provider)
      → Elem ac agents
      → let n = notify writable g agents in Elem (ac.conn, g) n.told ⊎ Elem ac.conn n.closed
  unfolding notify
  notify-Elem [] ac h = elim h [ ]
  notify-Elem (a ∷ agents) ac (inl same) =
      if_cases (λ (n : Notices). Elem (ac.conn, g) n.told ⊎ Elem ac.conn n.closed) (writable a.conn)
        _ _ (λ told. inl (inl (ap (λ (x : Provider). (x.conn, g)) same)))
        λ shut. inr (inl (ap (λ (x : Provider). x.conn) same))
  notify-Elem (a ∷ agents) ac (inr h) =
      if_cases (λ (n : Notices). Elem (ac.conn, g) n.told ⊎ Elem ac.conn n.closed) (writable a.conn)
        _ _ (λ told. elim (notify-Elem agents ac h) [ inl t ↦ inl (inr t) | inr c ↦ inr c ])
        λ shut. elim (notify-Elem agents ac h) [ inl t ↦ inl t | inr c ↦ inr (inr c) ]

  notify-same :
      (agents : List Provider) (c : ℕ) (other : Goaway)
      → Elem (c, other) (notify writable g agents).told
      → other ≡ g
  unfolding notify
  notify-same [] c other = λ h. elim h [ ]
  notify-same (a ∷ agents) c other =
      if_cases (λ (n : Notices). Elem (c, other) n.told → other ≡ g) (writable a.conn) _ _
        (λ told h. elim h [
          | inl same ↦ ap (λ (x : ℕ × Goaway). x.1) same
          | inr there ↦ notify-same agents c other there
        ])
        (λ shut h. notify-same agents c other h)

conns_of-Elem :
    (agents : List Provider) (ac : Provider) → Elem ac agents → Elem ac.conn (conns_of agents)
unfolding conns_of
conns_of-Elem [] ac h = elim h [ ]
conns_of-Elem (a ∷ agents) ac (inl same) = inl (ap (λ (x : Provider). x.conn) same)
conns_of-Elem (a ∷ agents) ac (inr h) = inr (conns_of-Elem agents ac h)

-- Some agent was live at each of these turns, and the loop went on.
abbrev pub Polled : List Provider × DrainEvent → Type 0
Polled turn = (turn.0 ≢ []) × (turn.1 ≡ polled)

-- After any polls that find an agent, the first turn that finds none ends the drain, and the first
-- turn that takes the deadline ends it with every link that is left closed.
pub drain_ends :
    (before after : List (List Provider × DrainEvent)) (left : List Provider) (event : DrainEvent)
    → All Polled before
    → (left ≡ []) ⊎ (event ≡ timed_out)
    → let end = wait_for_agents (before ++ (left, event) ∷ after) in
      ((left ≡ []) × (end ≡ relocated))
      ⊎ ((closed : List ℕ) × (end ≡ forced closed)
          × ((ac : Provider) → Elem ac left → Elem ac.conn closed))
unfolding wait_for_agents
drain_ends [] after [] event ticks ended = inl (refl, refl)
drain_ends [] after (a ∷ left) timed_out ticks ended =
    inr (conns_of (a ∷ left), refl, conns_of-Elem (a ∷ left))
drain_ends [] after (a ∷ left) cancelled ticks ended = absurd (ground (arith, ended))
drain_ends [] after (a ∷ left) polled ticks ended = absurd (ground (arith, ended))
drain_ends (([], e) ∷ before) after left event ((live, again), ticks) ended = absurd (live refl)
drain_ends ((b ∷ agents, polled) ∷ before) after left event (again, ticks) ended =
    drain_ends before after left event ticks ended
drain_ends ((b ∷ agents, cancelled) ∷ before) after left event ((live, again), ticks) ended =
    absurd (ground (arith, again))
drain_ends ((b ∷ agents, timed_out) ∷ before) after left event ((live, again), ticks) ended =
    absurd (ground (arith, again))

-- A drain tells every live agent or closes its link; all that are told get the same GOAWAY, whose
-- deadline fits 32 bits.
pub everyone_is_told :
    (writable : ℕ → Bool) (targets successors : List Bytes) (reason : Bytes) (deadline : ℕ)
    (agents : List Provider) (turns : List (List Provider × DrainEvent))
    → let n = (drain writable targets successors reason deadline agents turns).0 in
      let g = goaway targets successors reason deadline in
      ((ac : Provider) → Elem ac agents → Elem (ac.conn, g) n.told ⊎ Elem ac.conn n.closed)
      × ((c : ℕ) (other : Goaway) → Elem (c, other) n.told → other ≡ g)
      × (g.deadline_ms ≤ max_u32)
unfolding drain goaway clamp_ms
everyone_is_told writable targets successors reason deadline agents turns =
    let g = goaway targets successors reason deadline in
    (notify-Elem writable g agents, notify-same writable g agents, ground arith)

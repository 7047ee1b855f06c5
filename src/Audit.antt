-- ===== src/Audit.antt =====
-- pkg/audit/emitter.go: the queue of audit events between the data plane and the controller. The event
-- type of the generated protocol package is a parameter.
mod Samples
use mathlib.Core.List.{append_assoc}
use outrelay_relay.Common.{
  ℕ, [], ◌∷◌, ◌++◌, ◌≡◌, ◌≤◌, arith, refl, length, List, ltb, if◌then◌else◌, if_cases, subst, ap,
  sym, ◌∙◌, length-append, ◌+◌, Bool-cases, ◌-◌, inl, inr,
}

abbrev pub queue_depth : ℕ
queue_depth = 1_024

-- The channel, and what has been handed to the controller, which may fail to record it.
pub record Emitter (E : Type 0) : Type 0 where
  pub queue : List E
  pub shipped : List E

-- The calls of `Emit` and the turns of `Run`.
pub data Turn (E : Type 0) : Type 0 where
  emits : E → Turn E
  drains : Turn E

module _ {E : Type 0} where
  unfoldable pub new_emitter : Emitter E
  new_emitter = record { queue = []; shipped = [] }

  -- `Emit`: the `default` case drops the event.
  unfoldable pub emit : E → Emitter E → Emitter E
  emit ev e =
      if ltb (length e.queue) queue_depth then record e { queue = e.queue ++ ev ∷ [] } else e

  unfoldable pub ship : List E → Emitter E → Emitter E
  ship [] e = e
  ship (ev ∷ rest) e = record { queue = rest; shipped = e.shipped ++ ev ∷ [] }

  -- A turn of the loop of `Run`: it waits while the queue is empty.
  unfoldable pub drain : Emitter E → Emitter E
  unfolding ship
  drain e = ship e.queue e

  -- After the calls and turns, the newest of which stands first.
  unfoldable pub after : List (Turn E) → Emitter E
  unfolding emit drain new_emitter
  after [] = new_emitter
  after (emits ev ∷ turns) = emit ev (after turns)
  after (drains ∷ turns) = drain (after turns)

  -- How many events wait, and which ones were taken: those that came while fewer than 1024 waited.
  pub waiting : List (Turn E) → ℕ
  waiting [] = 0
  waiting (emits ev ∷ turns) =
      let before = waiting turns in if ltb before queue_depth then before + 1 else before
  waiting (drains ∷ turns) = waiting turns - 1

  pub taken : List (Turn E) → List E
  taken [] = []
  taken (emits ev ∷ turns) =
      let rest = taken turns in if ltb (waiting turns) queue_depth then rest ++ ev ∷ [] else rest
  taken (drains ∷ turns) = taken turns

  -- The state after the turns, by the two.
  abbrev pub Accounted : List (Turn E) → Emitter E → Type 0
  Accounted turns e =
      (e.shipped ++ e.queue ≡ taken turns)
      × (length e.queue ≡ waiting turns)
      × (waiting turns ≤ queue_depth)

  emit-Accounted :
      (ev : E) (turns : List (Turn E)) (e : Emitter E)
      → Accounted turns e
      → Accounted (emits ev ∷ turns) (emit ev e)
  unfolding emit taken waiting
  emit-Accounted ev turns e (all, count, fits) =
      elim (Bool-cases (ltb (waiting turns) queue_depth)) [
        | inl room ↦
            rw (emit, count, room)
              (
                sym (append_assoc e.shipped e.queue (ev ∷ [])) ∙ ap (λ l. l ++ ev ∷ []) all,
                length-append e.queue (ev ∷ []) ∙ ap (λ n. n + 1) count,
                ground (arith, room),
              )
        | inr full ↦ rw (emit, count, full) (all, count, fits)
      ]

  ship-Accounted :
      (queue : List E) (turns : List (Turn E)) (e : Emitter E)
      → e.queue ≡ queue
      → Accounted turns e
      → Accounted (drains ∷ turns) (ship queue e)
  unfolding ship taken waiting
  ship-Accounted [] turns e eq (all, count, fits) =
      (all, ground (arith, eq, count), ground (arith, fits))
  ship-Accounted (ev ∷ rest) turns e eq (all, count, fits) = (
    append_assoc e.shipped (ev ∷ []) rest ∙ ap (λ q. e.shipped ++ q) (sym eq) ∙ all,
    ground (arith, eq, count),
    ground (arith, fits),
  )

  -- Whatever calls of Emit and turns of Run happen in whatever order, what was handed to the
  -- controller followed by what waits is, in their order, exactly the events that came while fewer
  -- than 1024 waited: none of these is lost, and any other one is dropped. As many wait as the
  -- calls and turns account for, never more than 1024.
  pub after-Accounted :
      (turns : List (Turn E))
      → ((after turns).shipped ++ (after turns).queue ≡ taken turns)
        × (length (after turns).queue ≡ waiting turns)
        × (waiting turns ≤ queue_depth)
  unfolding after new_emitter drain taken waiting
  after-Accounted [] = (refl, refl, omega arith)
  after-Accounted (emits ev ∷ turns) = emit-Accounted ev turns (after turns) (after-Accounted turns)
  after-Accounted (drains ∷ turns) =
      ship-Accounted (after turns).queue turns (after turns) refl (after-Accounted turns)

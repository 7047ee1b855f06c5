-- ===== src/Start/Shutdown/Quiet.antt =====
-- When a relay exits without an error.
use outrelay_relay.Start.Setup.{Flags}
use outrelay_relay.Edge.Drain.Endpoint.{DrainAnswer, post_only, bad_deadline, draining}
use outrelay_relay.Edge.Accept.{stopped, failed, serving}
use outrelay_relay.Start.Shutdown.{
  LifecycleEvent, signalled, signal_taken, drain_returned, drain_posted, run_returned,
  SignalHandler, waiting, relocating, returned, Lifecycle, drain_defaults, launch, on_signal,
  on_drained, on_answer, on_run_end, on_event, unless_exited, lifecycle, List, Bool,
}
use outrelay_relay.Common.{
  List, Bool, ℕ, ◌≡◌, true, [], ◌∷◌, arith, Bytes, refl, Option, if_cases, some, none, ◌==◌,
  bytes_eq,
}
use outrelay_relay.Start.Shutdown.Stages.{
  held, WoundDown, Stage, idle, busy, gone, unless_exited-Stage,
}

-- `Run` returns without an error only where the context has ended, as `Accept` promises.
abbrev pub Honest : LifecycleEvent → Lifecycle → Type 0
Honest (run_returned stopped) s = s.cancelled ≡ true
Honest _ s = Unit

-- An exit without an error follows the end of the context.
abbrev Quiet : Lifecycle → Type 0
Quiet s = s.exit ≡ some 0 → s.cancelled ≡ true

module _ (is_space : ℕ → Bool) (parse_duration : Bytes → Option ℕ) (f : Flags) where
  still_runs :
      (old new : Option ℕ) (over : Bool) → old ≡ none → new ≡ old → new ≡ some 0 → over ≡ true
  still_runs old new over runs same exited = absurd (ground (arith, runs, same, exited))

  exit-on_signal :
      (a : SignalHandler) (s : Lifecycle) → (on_signal is_space parse_duration f a s).exit ≡ s.exit
  unfolding on_signal
  exit-on_signal waiting s =
      if_cases (λ (t : Lifecycle). t.exit ≡ s.exit) f.drain_on_signal _ _ (λ on. refl) λ off. refl
  exit-on_signal relocating s = refl
  exit-on_signal returned s = refl

  exit-on_drained :
      (a : SignalHandler) (s : Lifecycle) → (on_drained is_space parse_duration f a s).exit ≡ s.exit
  unfolding on_drained
  exit-on_drained waiting s = refl
  exit-on_drained relocating s = refl
  exit-on_drained returned s = refl

  exit-on_answer :
      (a : DrainAnswer) (s : Lifecycle) → (on_answer is_space parse_duration f a s).exit ≡ s.exit
  unfolding on_answer
  exit-on_answer post_only s = refl
  exit-on_answer bad_deadline s = refl
  exit-on_answer (draining d) s = refl

  on_event-Quiet :
      (e : LifecycleEvent) (s : Lifecycle)
      → s.exit ≡ none
      → Honest e s
      → Quiet (on_event is_space parse_duration f e s)
  unfolding on_event on_run_end
  on_event-Quiet signalled s runs ok = still_runs _ _ _ runs refl
  on_event-Quiet signal_taken s runs ok =
      if_cases Quiet s.sig_c _ _ (λ full. still_runs _ _ _ runs (exit-on_signal s.handler s))
        λ empty. still_runs _ _ _ runs refl
  on_event-Quiet drain_returned s runs ok = still_runs _ _ _ runs (exit-on_drained s.handler s)
  on_event-Quiet (drain_posted r) s runs ok =
      if_cases Quiet (f.debug_listen == []) _ _ (λ off. still_runs _ _ _ runs refl)
        λ on. still_runs _ _ _ runs (exit-on_answer _ s)
  on_event-Quiet (run_returned stopped) s runs ok = λ over. ok
  on_event-Quiet (run_returned failed) s runs ok = λ over. absurd (ground (arith, over))
  on_event-Quiet (run_returned serving) s runs ok = still_runs _ _ _ runs refl

  unless_exited-Quiet :
      (e : LifecycleEvent) (code : Option ℕ) (s : Lifecycle)
      → s.exit ≡ code
      → Honest e s
      → Quiet s
      → Quiet (unless_exited is_space parse_duration f code e s)
  unfolding unless_exited
  unless_exited-Quiet e none s runs ok v = on_event-Quiet e s runs ok
  unless_exited-Quiet e (some code) s over ok v = v

  module _ (tcp_bound : Bool) where
    abbrev pub Lawful : List LifecycleEvent → Type 0
    Lawful [] = Unit
    Lawful (e ∷ h) = Honest e (lifecycle is_space parse_duration f tcp_bound h) × Lawful h

    lifecycle-Stage :
        (h : List LifecycleEvent)
        → Stage f.drain_on_signal
            (drain_defaults is_space parse_duration f)
            h
            (lifecycle is_space parse_duration f tcp_bound h)
    unfolding lifecycle launch held
    lifecycle-Stage [] = idle refl refl refl (omega arith)
    lifecycle-Stage (e ∷ h) =
        unless_exited-Stage is_space parse_duration f h _ e _ (lifecycle-Stage h)

    launch-Quiet : Quiet (launch is_space parse_duration f tcp_bound)
    unfolding launch
    launch-Quiet over = absurd (ground (arith, over))

    lifecycle-Quiet :
        (h : List LifecycleEvent)
        → Lawful h
        → Quiet (lifecycle is_space parse_duration f tcp_bound h)
    unfolding lifecycle
    lifecycle-Quiet [] ok = launch-Quiet
    lifecycle-Quiet (e ∷ h) (here, rest) =
        unless_exited-Quiet e _ _ refl here (lifecycle-Quiet h rest)

    stage_down :
        (h : List LifecycleEvent) (s : Lifecycle)
        → s.cancelled ≡ true
        → Stage f.drain_on_signal (drain_defaults is_space parse_duration f) h s
        → WoundDown f.drain_on_signal (drain_defaults is_space parse_duration f) h s
    stage_down h s over (idle at live none_called told) = absurd (ground (arith, over, live))
    stage_down h s over (busy at on live called told) = absurd (ground (arith, over, live))
    stage_down h s over (gone at down_over down) = down

    -- A relay of which Run returns without an error only after the end of the context exits with 0
    -- only in one of three ways: drain-on-signal is off, a signal came and the signals' goroutine
    -- called no drain; or it is on, exactly the one drain of the flags was called, and after a
    -- signal this drain has returned, or two signals came.
    pub exits-WoundDown :
        (h : List LifecycleEvent)
        → Lawful h
        → (lifecycle is_space parse_duration f tcp_bound h).exit ≡ some 0
        → WoundDown f.drain_on_signal
            (drain_defaults is_space parse_duration f)
            h
            (lifecycle is_space parse_duration f tcp_bound h)
    exits-WoundDown h ok over = stage_down h _ (lifecycle-Quiet h ok over) (lifecycle-Stage h)

-- ===== src/Start/Shutdown/Stages.antt =====
-- Where the goroutine of the signals stands while events come.
use outrelay_relay.Start.Setup.{Flags}
use outrelay_relay.Edge.Drain.Endpoint.{
  DrainDefaults, DrainAnswer, post_only, bad_deadline, draining, DrainRequest,
}
use outrelay_relay.Edge.Accept.{RunEnd, stopped, failed, serving}
use outrelay_relay.Start.Shutdown.{
  LifecycleEvent, signalled, signal_taken, drain_returned, drain_posted, run_returned, waiting,
  relocating, returned, Lifecycle, drain_defaults, on_signal, on_drained, on_answer, on_run_end,
  on_event, unless_exited, List, Bool,
}
use outrelay_relay.Common.{
  List, Bool, ℕ, false, ◌≡◌, ◌+◌, true, [], ◌≤◌, ◌∷◌, arith, ◌∙◌, Bytes, refl, Option, ap, subst,
  if_cases, some, sym, none, ◌==◌, bytes_eq,
}

abbrev pub signals : List LifecycleEvent → ℕ
signals [] = 0
signals (signalled ∷ h) = signals h + 1
signals (_ ∷ h) = signals h

abbrev pub drained : List LifecycleEvent → Bool
drained [] = false
drained (drain_returned ∷ h) = true
drained (_ ∷ h) = drained h

-- How many signals wait in the channel.
unfoldable pub held : Bool → ℕ
held true = 1
held false = 0

-- The relay was told to leave: without a drain, or after the one drain of the flags, which has returned
-- or was cut short by a second signal.
pub data WoundDown (on_signal : Bool) (d : DrainDefaults) (h : List LifecycleEvent) (s : Lifecycle)
    : Type 0 where
  at_once : on_signal ≡ false → s.drains ≡ [] → 1 ≤ signals h → WoundDown on_signal d h s
  relocated :
      on_signal ≡ true
      → s.drains ≡ d ∷ []
      → 1 ≤ signals h
      → drained h ≡ true
      → WoundDown on_signal d h s
  cut_short : on_signal ≡ true → s.drains ≡ d ∷ [] → 2 ≤ signals h → WoundDown on_signal d h s

-- Where the goroutine of the signals stands.
pub data Stage (on_signal : Bool) (d : DrainDefaults) (h : List LifecycleEvent) (s : Lifecycle)
    : Type 0 where
  idle :
      s.handler ≡ waiting
      → s.cancelled ≡ false
      → s.drains ≡ []
      → held s.sig_c ≤ signals h
      → Stage on_signal d h s
  busy :
      s.handler ≡ relocating
      → on_signal ≡ true
      → s.cancelled ≡ false
      → s.drains ≡ d ∷ []
      → 1 + held s.sig_c ≤ signals h
      → Stage on_signal d h s
  gone :
      s.handler ≡ returned → s.cancelled ≡ true → WoundDown on_signal d h s → Stage on_signal d h s

signals-later : (e : LifecycleEvent) (h : List LifecycleEvent) → signals h ≤ signals (e ∷ h)
signals-later signalled h = omega arith
signals-later signal_taken h = omega arith
signals-later drain_returned h = omega arith
signals-later (drain_posted r) h = omega arith
signals-later (run_returned r) h = omega arith

drained-later :
    (e : LifecycleEvent) (h : List LifecycleEvent) → drained h ≡ true → drained (e ∷ h) ≡ true
drained-later signalled h d = d
drained-later signal_taken h d = d
drained-later drain_returned h d = refl
drained-later (drain_posted r) h d = d
drained-later (run_returned r) h d = d

module _ (flag : Bool) (d : DrainDefaults) (e : LifecycleEvent) (h : List LifecycleEvent)
    (s t : Lifecycle) (same : t.drains ≡ s.drains) where
  WoundDown-later : WoundDown flag d h s → WoundDown flag d (e ∷ h) t
  WoundDown-later (at_once off none_called told) =
      at_once off (same ∙ none_called) (omega (arith, told, signals-later e h))
  WoundDown-later (relocated on called told back) =
      relocated on (same ∙ called) (omega (arith, told, signals-later e h)) (drained-later e h back)
  WoundDown-later (cut_short on called told) =
      cut_short on (same ∙ called) (omega (arith, told, signals-later e h))

  -- An event that leaves the goroutine where it is.
  Stage-later :
      t.handler ≡ s.handler
      → t.cancelled ≡ s.cancelled
      → held t.sig_c + signals h ≤ held s.sig_c + signals (e ∷ h)
      → Stage flag d h s
      → Stage flag d (e ∷ h) t
  Stage-later there alike room (idle at live none_called told) =
      idle (there ∙ at) (alike ∙ live) (same ∙ none_called) (omega (arith, room, told))
  Stage-later there alike room (busy at on live called told) =
      busy (there ∙ at) on (alike ∙ live) (same ∙ called) (omega (arith, room, told))
  Stage-later there alike room (gone at over down) =
      gone (there ∙ at) (alike ∙ over) (WoundDown-later down)

module _ (is_space : ℕ → Bool) (parse_duration : Bytes → Option ℕ) (f : Flags)
    (h : List LifecycleEvent) (s : Lifecycle) where
  abbrev AtStage : LifecycleEvent → Lifecycle → Type 0
  AtStage e t = Stage f.drain_on_signal (drain_defaults is_space parse_duration f) (e ∷ h) t

  abbrev Here : Type 0
  Here = Stage f.drain_on_signal (drain_defaults is_space parse_duration f) h s

  unmoved : (e : LifecycleEvent) → Here → AtStage e s
  unmoved e v =
      Stage-later f.drain_on_signal _ e h s s refl refl refl (omega (arith, signals-later e h)) v

  taken-Stage :
      s.sig_c ≡ true → Here → AtStage signal_taken (on_signal is_space parse_duration f s.handler s)
  unfolding on_signal held
  taken-Stage full (idle at live none_called told) =
      let one = ap held full in
      subst (λ a. AtStage signal_taken (on_signal is_space parse_duration f a s)) (sym at)
        (if_cases (AtStage signal_taken) f.drain_on_signal _ _
          (λ on.
            busy refl on live (ap (λ l. drain_defaults is_space parse_duration f ∷ l) none_called)
              (omega (arith, told, one)))
          λ off. gone refl refl (at_once off none_called (omega (arith, told, one))))
  taken-Stage full (busy at on live called told) =
      let one = ap held full in
      subst (λ a. AtStage signal_taken (on_signal is_space parse_duration f a s)) (sym at)
        (gone refl refl (cut_short on called (omega (arith, told, one))))
  taken-Stage full (gone at over down) =
      subst (λ a. AtStage signal_taken (on_signal is_space parse_duration f a s)) (sym at)
        (unmoved signal_taken (gone at over down))

  drained-Stage : Here → AtStage drain_returned (on_drained is_space parse_duration f s.handler s)
  unfolding on_drained
  drained-Stage (idle at live none_called told) =
      subst (λ a. AtStage drain_returned (on_drained is_space parse_duration f a s)) (sym at)
        (unmoved drain_returned (idle at live none_called told))
  drained-Stage (busy at on live called told) =
      subst (λ a. AtStage drain_returned (on_drained is_space parse_duration f a s)) (sym at)
        (gone refl refl (relocated on called (omega (arith, told)) refl))
  drained-Stage (gone at over down) =
      subst (λ a. AtStage drain_returned (on_drained is_space parse_duration f a s)) (sym at)
        (unmoved drain_returned (gone at over down))

  answer-Stage :
      (r : DrainRequest) (a : DrainAnswer)
      → Here
      → AtStage (drain_posted r) (on_answer is_space parse_duration f a s)
  unfolding on_answer
  answer-Stage r post_only v = unmoved (drain_posted r) v
  answer-Stage r bad_deadline v = unmoved (drain_posted r) v
  answer-Stage r (draining d) v =
      Stage-later f.drain_on_signal _ (drain_posted r) h s _ refl refl refl (omega arith) v

  run_end-Stage :
      (end : RunEnd)
      → Here
      → AtStage (run_returned end) (on_run_end is_space parse_duration f end s)
  unfolding on_run_end
  run_end-Stage stopped v =
      Stage-later f.drain_on_signal _ (run_returned stopped) h s _ refl refl refl (omega arith) v
  run_end-Stage failed v =
      Stage-later f.drain_on_signal _ (run_returned failed) h s _ refl refl refl (omega arith) v
  run_end-Stage serving v = unmoved (run_returned serving) v

  on_event-Stage : (e : LifecycleEvent) → Here → AtStage e (on_event is_space parse_duration f e s)
  unfolding on_event held
  on_event-Stage signalled v =
      Stage-later f.drain_on_signal _ signalled h s _ refl refl refl (omega arith) v
  on_event-Stage signal_taken v =
      if_cases (AtStage signal_taken) s.sig_c _ _ (λ full. taken-Stage full v)
        λ empty. unmoved signal_taken v
  on_event-Stage drain_returned v = drained-Stage v
  on_event-Stage (drain_posted r) v =
      if_cases (AtStage (drain_posted r)) (f.debug_listen == []) _ _
        (λ off. unmoved (drain_posted r) v) λ on. answer-Stage r _ v
  on_event-Stage (run_returned end) v = run_end-Stage end v

  pub unless_exited-Stage :
      (e : LifecycleEvent) (code : Option ℕ)
      → Here
      → AtStage e (unless_exited is_space parse_duration f code e s)
  unfolding unless_exited
  unless_exited-Stage e none v = on_event-Stage e v
  unless_exited-Stage e (some code) v = unmoved e v

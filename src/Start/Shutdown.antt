-- ===== src/Start/Shutdown.antt =====
-- cmd/outrelay-relay/main.go: how a relay that serves comes to its end. The signals, the requests to the
-- debug server and the returns of `Drain` and `Run` are events; `is_space` stands for `unicode.IsSpace` and
-- `parse_duration` for `time.ParseDuration`.
pub mod Stages
pub mod Quiet
use outrelay_relay.Start.{split_endpoints}
use outrelay_relay.Start.Setup.{Flags}
use outrelay_relay.Edge.Drain.Endpoint.{
  DrainDefaults, DrainRequest, DrainAnswer, post_only, bad_deadline, draining, handle_drain,
}
use outrelay_relay.Edge.Accept.{RunEnd, stopped, failed, serving}
use outrelay_relay.Common.{
  codes, Bool, ℕ, List, Bytes, Option, false, true, some, ◌∷◌, if◌then◌else◌, [], none, ◌==◌, ◌||◌,
  bytes_eq,
}

pub data LifecycleEvent : Type 0 where
  signalled : LifecycleEvent
  signal_taken : LifecycleEvent
  drain_returned : LifecycleEvent
  drain_posted : DrainRequest → LifecycleEvent
  run_returned : RunEnd → LifecycleEvent

-- The goroutine of the signals: it waits for one, for its drain or a second one, or has returned.
pub data SignalHandler : Type 0 where
  waiting relocating returned : SignalHandler

-- `sig_c` says whether the channel, which holds one signal, is full. `drains` has the calls of `Drain` of
-- the goroutine, `asked` those of the debug server, and `exit` the exit code.
pub record Lifecycle : Type 0 where
  pub sig_c : Bool
  pub handler : SignalHandler
  pub cancelled : Bool
  pub drains : List DrainDefaults
  pub asked : List DrainDefaults
  pub exit : Option ℕ

module _ (is_space : ℕ → Bool) (parse_duration : Bytes → Option ℕ) (f : Flags) where
  unfoldable pub drain_defaults : DrainDefaults
  drain_defaults = record {
    targets = split_endpoints is_space f.drain_to;
    reason = codes "drain";
    deadline = f.drain_timeout;
  }

  -- `tcp_bound` says whether the fallback listener could be opened.
  unfoldable pub launch : Bool → Lifecycle
  launch tcp_bound = record {
    sig_c = false;
    handler = waiting;
    cancelled = false;
    drains = [];
    asked = [];
    exit = if f.listen_tcp == [] || tcp_bound then none else some 1;
  }

  unfoldable pub on_signal : SignalHandler → Lifecycle → Lifecycle
  on_signal waiting s =
      if f.drain_on_signal
      then record s { sig_c = false; handler = relocating; drains = drain_defaults ∷ s.drains }
      else record s { sig_c = false; handler = returned; cancelled = true }
  on_signal relocating s = record s { sig_c = false; handler = returned; cancelled = true }
  on_signal returned s = s

  unfoldable pub on_drained : SignalHandler → Lifecycle → Lifecycle
  on_drained relocating s = record s { handler = returned; cancelled = true }
  on_drained _ s = s

  unfoldable pub on_answer : DrainAnswer → Lifecycle → Lifecycle
  on_answer post_only s = s
  on_answer bad_deadline s = s
  on_answer (draining d) s = record s { asked = d ∷ s.asked }

  unfoldable pub on_run_end : RunEnd → Lifecycle → Lifecycle
  on_run_end stopped s = record s { exit = some 0 }
  on_run_end failed s = record s { exit = some 1 }
  on_run_end serving s = s

  unfoldable pub on_event : LifecycleEvent → Lifecycle → Lifecycle
  unfolding on_signal on_drained on_answer on_run_end
  on_event signalled s = record s { sig_c = true }
  on_event signal_taken s = if s.sig_c then on_signal s.handler s else s
  on_event drain_returned s = on_drained s.handler s
  on_event (drain_posted r) s =
      if f.debug_listen == []
      then s
      else on_answer (handle_drain is_space parse_duration r drain_defaults) s
  on_event (run_returned end) s = on_run_end end s

  -- Nothing happens after the exit.
  unfoldable pub unless_exited : Option ℕ → LifecycleEvent → Lifecycle → Lifecycle
  unfolding on_event
  unless_exited none e s = on_event e s
  unless_exited (some code) e s = s

  -- The events, the last one first.
  unfoldable pub lifecycle : Bool → List LifecycleEvent → Lifecycle
  unfolding launch unless_exited
  lifecycle tcp_bound [] = launch tcp_bound
  lifecycle tcp_bound (e ∷ h) = let s = lifecycle tcp_bound h in unless_exited s.exit e s

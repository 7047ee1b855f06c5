-- ===== src/Edge/System/Acts.antt =====
-- pkg/edge/edge.go: the acts of the handlers on the shared tables, and any sequence of them.
use outrelay_relay.Edge.Streams.Answer.{Ack, on_ack}
use outrelay_relay.Edge.System.{
  Outside, Process, waits, System, Act, connects, tracks, untracks, unregisters, releases, opens,
  answers, comes_back, demotes, ends, control, resumes, datagram, collects, advertises, watches,
  ships_audit, server_of, with_server, tables_of, with_tables, with_forward, set_successors,
  admitted, opened, answered, ended, spliced, driven,
}
use outrelay_relay.Common.{Option, ℕ, Bytes, get, List, Bool, ◌∷◌, [], some, true, nat_eq, none}
use outrelay_relay.Edge.Halves.{Half, handle_resume_half, handle_migrate_to_relay}
use outrelay_relay.Edge.Handshake.{Incoming, serve_conn}
use outrelay_relay.Edge.Streams.{AuditEvent, OpenStream, World, Relay, open_stream}
use outrelay_relay.Edge.Control.Loop.{ControlFrame, TurnClock, on_control}
use outrelay_relay.Edge.Migrated.{MigratedStream}
use outrelay_relay.Edge.Sessions
use outrelay_relay.Edge.Sessions.{Call, Server}
use outrelay_relay.Edge.ForwardResume.Grants.{drive_forward_resume}
use outrelay_relay.Forward.Alloc.{gc_once}
use outrelay_relay.Forward.Register
use outrelay_relay.Forward.State.{AddrPort, Plane}
use outrelay_relay.Registry.{Provider}
use outrelay_relay.Policy.Engine.{Engine}
use outrelay_relay.Policy.Cache.{Cache}
use outrelay_relay.Audit.{Emitter, drain}

module _ (out : Outside) where
  open out use {range, parse_tenant, parse_role, controller, split_host_port, atoi, fwd_endpoint}

  -- `conn` is a connection number that is new.
  unfoldable pub connect_as : Incoming → Option Provider → System → System
  unfolding admitted
  connect_as c none s = admitted (serve_conn parse_role c (server_of s)) s
  connect_as c (some known) s = s

  -- One of the calls that `serveConn` makes of a connection, in any order here.
  unfoldable pub call_as : (Provider → Call) → Option Provider → System → System
  call_as c none s = s
  call_as c (some ac) s = with_server (Sessions.call parse_tenant (c ac) (server_of s)) s

  unfoldable pub open_as :
      ℕ → World → OpenStream → Option Provider → Option Process → System → System
  unfolding opened
  open_as n world o (some ac) none s =
      opened n (open_stream range parse_tenant world ac o s.relay) s
  open_as n world o _ _ s = s

  unfoldable pub answer_as : ℕ → Ack → ℕ → ℕ → Bool → Bool → Option Process → System → System
  unfolding answered
  answer_as n ack now later consumer_ok provider_ok (some (waits w)) s =
      answered n w (on_ack fwd_endpoint w ack now later consumer_ok provider_ok s.relay) s
  answer_as n ack now later consumer_ok provider_ok _ s = s

  unfoldable pub control_as : Bytes → TurnClock → ControlFrame → Option Provider → System → System
  control_as remote_addr clock frame none s = s
  control_as remote_addr clock frame (some ac) s =
      with_tables
        (on_control parse_tenant controller split_host_port atoi ac remote_addr clock frame
          (tables_of s)).1
        s

  unfoldable pub resume_as :
      ℕ → ℕ → ℕ → Option Provider → Option Provider → Option Plane → System → System
  unfolding driven
  resume_as id now later (some self) (some peer) (some p) s =
      driven (drive_forward_resume fwd_endpoint s.relay.successors id self peer now later p) s
  resume_as id now later _ _ _ s = s

  unfoldable pub datagram_as : Bytes → AddrPort → ℕ → ℕ → Option Plane → System → System
  datagram_as buf src now checked none s = s
  datagram_as buf src now checked (some p) s =
      with_forward (some (Register.receive buf src now checked p).0) s

  unfoldable pub collect_as : ℕ → Option Plane → System → System
  collect_as now none s = s
  collect_as now (some p) s = with_forward (some (gc_once now p)) s

  unfoldable pub come_back_as : ℕ → ℕ → Half → Half → Option Process → System → System
  unfolding spliced
  come_back_as n id self peer none s =
      spliced n id self peer (handle_resume_half id self (some peer) true s.relay.pairs).pairs s
  come_back_as n id self peer (some taken) s = s

  unfoldable pub demote_as :
      ℕ → ℕ → Half → Half → Option MigratedStream → Option Process → System → System
  unfolding spliced
  demote_as n id self peer prior none s =
      let (r, table) =
        handle_migrate_to_relay id self prior (some peer) true s.relay.pairs s.migrated in
      let t = spliced n id self peer r.pairs s in record t { migrated = table }
  demote_as n id self peer prior (some taken) s = s

  -- Without an engine there is no watcher.
  unfoldable pub watch_as : Engine → Cache → Option Engine → System → System
  watch_as e m none s = s
  watch_as e m (some old) s = record s {
    relay = record s.relay { policy = some e; cache = some m };
  }

  unfoldable pub ship_as : Option (Emitter AuditEvent) → System → System
  ship_as none s = s
  ship_as (some e) s = record s { relay = record s.relay { audit = some (drain e) } }

  -- A handler has a number of its own: an act of a number that does not fit changes nothing.
  unfoldable pub step : Act → System → System
  unfolding connect_as call_as open_as answer_as ended control_as resume_as set_successors
  step (connects c) s = connect_as c (get c.conn s.conns) s
  step (tracks conn) s = call_as Sessions.tracks (get conn s.conns) s
  step (untracks conn) s = call_as Sessions.untracks (get conn s.conns) s
  step (unregisters conn) s = call_as Sessions.unregisters (get conn s.conns) s
  step (releases conn) s = call_as Sessions.forgets (get conn s.conns) s
  step (opens n conn world o) s = open_as n world o (get conn s.conns) (get n s.streams) s
  step (answers n ack now later consumer_ok provider_ok) s =
      answer_as n ack now later consumer_ok provider_ok (get n s.streams) s
  step (comes_back n id self peer) s = come_back_as n id self peer (get n s.streams) s
  step (demotes n id self peer prior) s = demote_as n id self peer prior (get n s.streams) s
  step (ends n) s = ended n (get n s.streams) s
  step (control conn remote_addr clock frame) s =
      control_as remote_addr clock frame (get conn s.conns) s
  step (resumes id self peer now later) s =
      resume_as id now later (get self s.conns) (get peer s.conns) s.relay.forward s
  step (datagram buf src now checked) s = datagram_as buf src now checked s.relay.forward s
  step (collects now) s = collect_as now s.relay.forward s
  step (advertises endpoints) s = record s { relay = set_successors endpoints s.relay }
  step (watches e m) s = watch_as e m s.relay.policy s
  step ships_audit s = ship_as s.relay.audit s

  -- The acts, the last one first.
  unfoldable pub run : List Act → System → System
  unfolding step
  run [] s = s
  run (a ∷ acts) s = step a (run acts s)

-- A relay that has been set up and has served nobody.
abbrev pub fresh_system : Relay → System
fresh_system r = record {
  relay = r;
  agents = [];
  migrated = [];
  sent = [];
  conns = [];
  streams = [];
  resumed = [];
}

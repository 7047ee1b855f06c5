-- ===== src/Policy/Watcher.antt =====
-- pkg/policy/client.go: `Watcher.Run`, and `runOnce` as a fold over the events that the stream delivers until it
-- ends. `range` stands for the order in which Go visits the engine's working set.
pub mod Coherent
pub mod Reconnect
use outrelay_relay.Common.{
  ℕ, none, some, true, false, [], ◌∷◌, List, Dict, Bool, Bytes, Option, if◌then◌else◌, ◌++◌, ◌==◌,
  nat_eq, bytes_eq,
}
use outrelay_relay.Policy.Rules.{Rule, Result}
use outrelay_relay.Policy.Wire.{Constants, PolicyRule, PolicyEvent, from_pb}
use outrelay_relay.Policy.Engine.{Engine, set_rules, add, remove, insert_all}
use outrelay_relay.Policy.Cache.{Cache, cache_flush}

-- The engine and the cache that the watcher shares with the rest, and the two locals of `runOnce`.
pub record Watch : Type 0 where
  pub engine : Engine
  pub cache : Cache
  pub pending : List Rule
  pub in_snapshot : Bool

-- The watcher as a stream is opened.
unfoldable pub open_watch : Engine → Cache → Watch
open_watch e c = record { engine = e; cache = c; pending = []; in_snapshot = true }

module _ (pb : Constants) (range : Dict Bytes Rule → List Bytes) where
  unfoldable pub on_added : Option PolicyRule → Watch → Watch
  unfolding cache_flush
  on_added none w = w
  on_added (some r) w =
      if w.in_snapshot
      then record w { pending = w.pending ++ from_pb pb r ∷ [] }
      else record w { engine = add range (from_pb pb r) w.engine; cache = cache_flush w.cache }

  unfoldable pub on_removed : Bytes → Watch → Watch
  unfolding cache_flush
  on_removed id w =
      if id == []
      then w
      else record w { engine = remove range id w.engine; cache = cache_flush w.cache }

  unfoldable pub on_snapshot_end : Watch → Watch
  unfolding cache_flush
  on_snapshot_end w = record w {
    engine = set_rules range w.pending w.engine;
    cache = cache_flush w.cache;
    pending = [];
    in_snapshot = false;
  }

  -- The `switch ev.Kind`; any other kind is passed over.
  unfoldable pub on_event : PolicyEvent → Watch → Watch
  unfolding on_added on_removed on_snapshot_end
  on_event ev w =
      if ev.kind == pb.kind_added
      then on_added ev.rule w
      else if ev.kind == pb.kind_removed
      then on_removed ev.removed_id w
      else if ev.kind == pb.kind_snapshot_end
      then on_snapshot_end w
      else w

  unfoldable pub run_once : List PolicyEvent → Watch → Watch
  unfolding on_event
  run_once [] w = w
  run_once (ev ∷ evs) w = run_once evs (on_event ev w)

  -- One turn of the loop of `Run`: a stream that could not be opened, or its events until it ends.
  unfoldable pub run_stream : Option (List PolicyEvent) → Engine × Cache → Engine × Cache
  unfolding run_once open_watch
  run_stream none (e, c) = (e, c)
  run_stream (some evs) (e, c) = let w = run_once evs (open_watch e c) in (w.engine, w.cache)

  -- The turns of `Run` until its context ends.
  unfoldable pub run_watch : List (Option (List PolicyEvent)) → Engine × Cache → Engine × Cache
  unfolding run_stream
  run_watch [] s = s
  run_watch (stream ∷ streams) s = run_watch streams (run_stream stream s)

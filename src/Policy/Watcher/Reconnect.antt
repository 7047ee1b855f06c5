-- ===== src/Policy/Watcher/Reconnect.antt =====
-- pkg/policy/client.go: the watcher opens its stream again and again.
use outrelay_relay.Policy.Rules.{Rule}
use outrelay_relay.Policy.Engine.{Engine, set_rules}
use outrelay_relay.Policy.Cache.{Cache}
use outrelay_relay.Policy.Wire.{Constants, PolicyEvent}
use outrelay_relay.Policy.Watcher.{run_stream, run_watch, Dict}
use outrelay_relay.Policy.Watcher.Coherent.{added_rules, snapshot-set_rules, set_rules-forgets}
use outrelay_relay.Common.{
  refl, Dict, Bytes, List, Option, All, ◌++◌, ◌≡◌, ◌==◌, ◌∷◌, false, ◌≢◌, [], some, ◌∙◌, arith,
  nat_eq,
}

module _ (pb : Constants) (range : Dict Bytes Rule → List Bytes) where
  run_watch-append :
      (streams more : List (Option (List PolicyEvent))) (s : Engine × Cache)
      → run_watch pb range (streams ++ more) s
        ≡ run_watch pb range more (run_watch pb range streams s)
  unfolding run_watch
  run_watch-append [] more s = refl
  run_watch-append (stream ∷ streams) more s =
      run_watch-append streams more (run_stream pb range stream s)

  -- Whatever streams came before, those that failed included, once the snapshot of a new stream has
  -- ended the engine is that of the rules which this stream has added, and the cache is empty. The
  -- numbers of ADDED and REMOVED differ from that of the end.
  pub reconnect_resyncs :
      (streams : List (Option (List PolicyEvent))) (evs : List PolicyEvent) (last : PolicyEvent)
      (start : Engine × Cache) (fresh : Engine)
      → All (λ (ev : PolicyEvent). (ev.kind == pb.kind_snapshot_end) ≡ false) evs
      → last.kind ≡ pb.kind_snapshot_end
      → pb.kind_added ≢ pb.kind_snapshot_end
      → pb.kind_removed ≢ pb.kind_snapshot_end
      → run_watch pb range (streams ++ some (evs ++ last ∷ []) ∷ []) start
        ≡ (set_rules range (added_rules pb range evs) fresh, [])
  unfolding run_watch run_stream
  reconnect_resyncs streams evs last start fresh early end distinct_added distinct_removed =
      let (e, c) = run_watch pb range streams start in
      let (engine, cache) =
        snapshot-set_rules pb range evs last e c early end distinct_added distinct_removed in
      run_watch-append streams (some (evs ++ last ∷ []) ∷ []) start
      ∙ ground (arith, engine, cache, set_rules-forgets pb range (added_rules pb range evs) e fresh)

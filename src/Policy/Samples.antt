-- ===== src/Policy/Samples.antt =====
-- Concrete policies, caches and event streams.
use outrelay_relay.Common.{
  ℕ, none, some, [], ◌∷◌, ◌++◌, ◌≡◌, ◌≢◌, refl, arith, true, false, Bytes, codes, get, keys,
  keys-IsRange, ◌<◌, ◌≤◌, length, ◌+◌, ◌⊎◌, ◌↔◌, List, bytes_eq,
}
use outrelay_relay.Policy.Glob.{match_glob}
use outrelay_relay.Policy.Glob.Correct.{Glob, match_glob-Glob}
use outrelay_relay.Policy.Rules.{Rule, Result, allow, deny, allowed, splice}
use outrelay_relay.Policy.Snapshot.{build_snapshot, decide, result_of, denied, or_denied}
use outrelay_relay.Policy.Snapshot.Linear.{decide-build_snapshot, first_of_list, by_precedence}
use outrelay_relay.Policy.Snapshot.Closed.{Applies}
use outrelay_relay.Policy.Engine.{
  Engine, new_engine, engine_decide, set_rules, remove, IsCurrent, set_rules-IsCurrent,
  engine_decide_closed, collect,
}
use outrelay_relay.Policy.Cache.{
  Cache, CacheKey, CacheEntry, key_eq, cache_get, cache_put, cache_flush, cache_ttl, cache_capacity,
  new_cache,
}
use outrelay_relay.Policy.Cache.Recency.{
  Call, put_call, get_call, flush_call, last_put, after, hit_is_recent,
}
use outrelay_relay.Policy.Wire.{Constants, PolicyRule, PolicyEvent}
use outrelay_relay.Policy.Watcher.{run_once, open_watch}
use outrelay_relay.Policy.Watcher.Coherent.{added_rules, snapshot_replaces, last_under}

abbrev alice : Bytes
alice = codes "alice"

abbrev printer : Bytes
printer = codes "printer"

abbrev anyone_prints : Rule
anyone_prints = record {
  id = codes "r1";
  caller_pattern = codes "*";
  target_pattern = printer;
  method_pattern = [];
  decision = allow;
  expires_unix_ms = 0;
  p2p_mode = allowed;
  relay_mode = splice;
}

abbrev nobody : Rule
nobody = record {
  id = codes "r2";
  caller_pattern = codes "*";
  target_pattern = codes "p*r";
  method_pattern = [];
  decision = deny;
  expires_unix_ms = 0;
  p2p_mode = allowed;
  relay_mode = splice;
}

match_glob_example : (match_glob (codes "p*n*r") printer ≡ true) ↔ Glob (codes "p*n*r") printer
match_glob_example = match_glob-Glob (codes "p*n*r") printer

-- The glob does match.
glob_runs : match_glob (codes "p*n*r") printer ≡ true
unfolding match_glob outrelay_relay.Common.bytes_beq outrelay_relay.Policy.Glob.contains_star
    outrelay_relay.Policy.Glob.has_prefix outrelay_relay.Policy.Glob.split_star
    outrelay_relay.Policy.Glob.match_pieces outrelay_relay.Policy.Glob.index
    outrelay_relay.Policy.Glob.has_suffix
glob_runs = refl

decide_example :
    decide (some (build_snapshot (nobody ∷ anyone_prints ∷ []))) alice printer [] 7
    ≡ or_denied (first_of_list alice printer [] 7 (by_precedence (nobody ∷ anyone_prints ∷ [])))
decide_example = decide-build_snapshot alice printer [] 7 (nobody ∷ anyone_prints ∷ [])

abbrev office : Engine
office = set_rules keys (nobody ∷ anyone_prints ∷ []) new_engine

office-IsCurrent : IsCurrent keys office
office-IsCurrent = set_rules-IsCurrent keys (nobody ∷ anyone_prints ∷ []) new_engine

engine_example :
    ((r : Rule) × (get r.id office.rules ≡ some r)
      × Applies alice printer [] 7 r
      × (engine_decide office alice printer [] 7 ≡ result_of r))
    ⊎ (((k : Bytes) (r : Rule) → get k office.rules ≡ some r → ¬ Applies alice printer [] 7 r)
        × (engine_decide office alice printer [] 7 ≡ denied (codes "no matching rule")))
engine_example = engine_decide_closed keys keys-IsRange office office-IsCurrent alice printer [] 7

abbrev question : CacheKey
question = record { caller = alice; target = printer; method = [] }

abbrev yes : Result
yes = result_of anyone_prints

abbrev calls : List Call
calls = get_call question 11 ∷ put_call question yes 10 10 ∷ flush_call ∷ []

calls_hit : (cache_get question 12 (after keys calls)).0 ≡ some yes
unfolding cache_get get after outrelay_relay.Policy.Cache.Recency.perform outrelay_relay.Common.put
    outrelay_relay.Policy.Cache.key_beq outrelay_relay.Common.bytes_beq
calls_hit = refl

hit_is_recent_example :
    (stamp : ℕ) × (last_put question calls ≡ some (yes, stamp)) × (12 < stamp + cache_ttl)
hit_is_recent_example = hit_is_recent keys calls question 12 yes calls_hit

abbrev pb : Constants
pb = record {
  decision_deny = 2;
  p2p_forbidden = 1;
  p2p_required = 2;
  relay_mode_forward = 1;
  kind_added = 1;
  kind_removed = 2;
  kind_snapshot_end = 3;
}

abbrev wire_rule : PolicyRule
wire_rule = record {
  id = codes "r1";
  caller_pattern = codes "*";
  target_pattern = printer;
  method_pattern = [];
  decision = 1;
  expires_unix_ms = 0;
  p2p_mode = 0;
  relay_mode = 0;
}

-- A rule that is added and removed again before the snapshot ends.
abbrev early : List PolicyEvent
early =
    record { kind = 1; rule = some wire_rule; removed_id = [] }
    ∷ record { kind = 2; rule = none; removed_id = codes "r1" }
    ∷ []

abbrev end_event : PolicyEvent
end_event = record { kind = 3; rule = none; removed_id = [] }

snapshot_example :
    let w = run_once pb keys (early ++ end_event ∷ []) (open_watch new_engine new_cache) in
    ((k : Bytes) → get k w.engine.rules ≡ last_under pb keys k (added_rules pb keys early))
    × (w.engine.cur ≡ build_snapshot (collect (keys w.engine.rules) w.engine.rules))
    × (w.cache ≡ [])
snapshot_example =
    snapshot_replaces pb keys early end_event new_engine new_cache (refl, (refl, tt)) refl
      (omega arith) (omega arith)

-- The removed rule still decides.
removed_rule_decides :
    let w = run_once pb keys (early ++ end_event ∷ []) (open_watch new_engine new_cache) in
    engine_decide w.engine alice printer [] 7 ≡ yes
unfolding run_once engine_decide decide get set_rules build_snapshot keys
    outrelay_relay.Common.bytes_beq open_watch outrelay_relay.Common.put
    outrelay_relay.Policy.Wire.from_pb outrelay_relay.Common.retain remove new_engine
    outrelay_relay.Policy.Glob.contains_star outrelay_relay.Policy.Snapshot.rule_applies match_glob
    outrelay_relay.Policy.Wire.decision_from_pb outrelay_relay.Policy.Wire.p2p_mode_from_pb
    outrelay_relay.Policy.Wire.relay_mode_from_pb
removed_rule_decides = refl

-- ===== src/Policy/Snapshot.antt =====
-- pkg/policy/matcher.go: `Snapshot`, `BuildSnapshot`, `matchFirst` and `Decide`.
pub mod Linear
pub mod Closed
use outrelay_relay.Common.{
  ℕ, Bool, not, ◌&&◌, if◌then◌else◌, ◌==◌, nat_eq, bytes_eq, Bytes, codes, Dict, get, put, Option,
  none, some, ltb, leb, List, false, ◌++◌, [], ◌∷◌, true,
}
use outrelay_relay.Policy.Glob.{match_glob, contains_star}
use outrelay_relay.Policy.Rules.{Rule, Result, deny, allowed, splice}

pub record Snapshot : Type 0 where
  pub by_target : Dict Bytes (List Rule)
  pub wildcard : List Rule

-- The body of the loop of `matchFirst`: false where it continues.
unfoldable pub rule_applies : Rule → Bytes → Bytes → Bytes → ℕ → Bool
rule_applies r caller target method now_ms =
    if ltb 0 r.expires_unix_ms && leb r.expires_unix_ms now_ms
    then false
    else if not (match_glob r.caller_pattern caller)
    then false
    else if not (match_glob r.target_pattern target)
    then false
    else if not (r.method_pattern == []) && not (match_glob r.method_pattern method)
    then false
    else true

unfoldable pub match_first : List Rule → Bytes → Bytes → Bytes → ℕ → Option Rule
match_first [] caller target method now_ms = none
match_first (r ∷ rs) caller target method now_ms =
    let rest = match_first rs caller target method now_ms in
    if rule_applies r caller target method now_ms then some r else rest

abbrev pub or_empty : Option (List Rule) → List Rule
or_empty none = []
or_empty (some rs) = rs

unfoldable pub add_rule : Snapshot → Rule → Snapshot
add_rule s r =
    if contains_star r.target_pattern
    then record s { wildcard = s.wildcard ++ r ∷ [] }
    else record s {
      by_target =
          put r.target_pattern (or_empty (get r.target_pattern s.by_target) ++ r ∷ []) s.by_target;
    }

unfoldable pub build_from : Snapshot → List Rule → Snapshot
build_from s [] = s
build_from s (r ∷ rs) = build_from (add_rule s r) rs

unfoldable pub build_snapshot : List Rule → Snapshot
unfolding build_from add_rule
build_snapshot rules = build_from (record { by_target = []; wildcard = [] }) rules

abbrev pub denied : Bytes → Result
denied reason = record { decision = deny; reason = reason; p2p_mode = allowed; relay_mode = splice }

abbrev pub result_of : Rule → Result
result_of r = record {
  decision = r.decision;
  reason = r.id;
  p2p_mode = r.p2p_mode;
  relay_mode = r.relay_mode;
}

abbrev pub or_denied : Option Rule → Result
or_denied none = denied (codes "no matching rule")
or_denied (some r) = result_of r

abbrev pub or_wildcard : Option Rule → Option Rule → Option Rule
or_wildcard none other = other
or_wildcard (some r) other = some r

-- A snapshot that is `nil` is `none`.
unfoldable pub decide : Option Snapshot → Bytes → Bytes → Bytes → ℕ → Result
unfolding match_first
decide none caller target method now_ms = denied (codes "no policy snapshot")
decide (some s) caller target method now_ms = or_denied (
    or_wildcard (match_first (or_empty (get target s.by_target)) caller target method now_ms)
      (match_first s.wildcard caller target method now_ms))

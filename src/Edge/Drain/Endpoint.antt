-- ===== src/Edge/Drain/Endpoint.antt =====
-- pkg/edge/drain.go: `DrainHandler`. `is_space` stands for `unicode.IsSpace` and `parse_duration` for
-- `time.ParseDuration`, whose result is in nanoseconds, 0 for one that is not positive.
pub mod Targets
use outrelay_relay.Text.{Runes, comma, split, trim_space}
use outrelay_relay.Common.{
  List, Bool, ℕ, Bytes, Option, ◌∷◌, if◌then◌else◌, some, ◌==◌, not, [], bytes_eq, none, nat_eq,
}

pub record DrainDefaults : Type 0 where
  pub targets : List Runes
  pub reason : Bytes
  pub deadline : ℕ

-- The parameters of the request; one that is missing is empty. Targets are given by their runes.
pub record DrainRequest : Type 0 where
  pub is_post : Bool
  pub to : Runes
  pub reason : Bytes
  pub deadline : Bytes

-- The answer, with the call of `drain` that was made.
pub data DrainAnswer : Type 0 where
  post_only bad_deadline : DrainAnswer
  draining : DrainDefaults → DrainAnswer

module _ (is_space : ℕ → Bool) where
  unfoldable pub collect_targets : List Runes → List Runes
  collect_targets [] = []
  collect_targets (ep ∷ eps) =
      let rest = collect_targets eps in
      let trimmed = trim_space is_space ep in if trimmed == [] then rest else trimmed ∷ rest

  unfoldable pub choose_targets : Runes → List Runes → List Runes
  unfolding collect_targets
  choose_targets raw defaults =
      let trimmed = trim_space is_space raw in
      if trimmed == [] then defaults else collect_targets (split comma trimmed)

  module _ (parse_duration : Bytes → Option ℕ) where
    unfoldable pub choose_deadline : Bytes → ℕ → Option ℕ
    choose_deadline v default =
        if v == []
        then some default
        else elim (parse_duration v) [ none ↦ none | some d ↦ if d == 0 then none else some d ]

    unfoldable pub answer_drain : DrainRequest → DrainDefaults → Option ℕ → DrainAnswer
    unfolding choose_targets
    answer_drain r defaults none = bad_deadline
    answer_drain r defaults (some deadline) = draining (record {
      targets = choose_targets r.to defaults.targets;
      reason = if r.reason == [] then defaults.reason else r.reason;
      deadline = deadline;
    })

    unfoldable pub handle_drain : DrainRequest → DrainDefaults → DrainAnswer
    unfolding answer_drain choose_deadline
    handle_drain r defaults =
        if not r.is_post
        then post_only
        else answer_drain r defaults (choose_deadline r.deadline defaults.deadline)

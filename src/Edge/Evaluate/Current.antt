-- ===== src/Edge/Evaluate/Current.antt =====
-- pkg/edge/edge.go, pkg/policy: what the policy check answers while the watcher changes the engine.
use outrelay_relay.Common.{
  none, some, ◌≡◌, refl, inl, inr, arith, ◌⊎◌, [], ◌∷◌, Option, Dict, Bytes, List, Elem, get, ◌+◌,
  ap, subst, ◌<◌, sym, ◌∙◌,
}
use outrelay_relay.Policy.Wire.{Constants, PolicyEvent}
use outrelay_relay.Policy.Rules.{Rule, Result}
use outrelay_relay.Policy.Engine.{Engine}
use outrelay_relay.Policy.Watcher.{Watch, on_event, open_watch}
use outrelay_relay.Policy.Watcher.Coherent.{on_event_coherent}
use outrelay_relay.Policy.Cache.{
  Cache, CacheKey, CacheEntry, key_eq, cache_get, new_cache, cache_ttl,
}
use outrelay_relay.Policy.Cache.Entries.{get-cache_put, get-cache_get, hit-entry}
use outrelay_relay.Edge.Evaluate.{Clock, decide_at, evaluate, on_miss, on_lookup}

pub data Step : Type 0 where
  evaluate_step : CacheKey → Clock → Step
  event_step : PolicyEvent → Step

abbrev or_cache : Cache → Option Cache → Cache
or_cache m none = m
or_cache m (some kept) = kept

module _ (pb : Constants) (rules_range : Dict Bytes Rule → List Bytes)
    (range : Cache → List CacheKey) where
  unfoldable pub perform : Step → Watch → Watch
  unfolding evaluate on_event
  perform (evaluate_step k c) w = record w {
    cache = or_cache w.cache (evaluate range w.engine (some w.cache) k c).1;
  }
  perform (event_step ev) w = on_event pb rules_range ev w

  -- The relay with that engine and an empty cache, after the steps; the newest stands first.
  unfoldable pub after : Engine → List Step → Watch
  unfolding new_cache
  after e [] = open_watch e new_cache
  after e (s ∷ steps) = perform s (after e steps)

  -- The entry is the answer that the engine gives at the readings of a call.
  pub record FromCall (e : Engine) (k : CacheKey) (n : CacheEntry) (steps : List Step)
      : Type 0 where
    pub clock : Clock
    pub called : Elem (evaluate_step k clock) steps
    pub answer : n.res ≡ decide_at e k clock
    pub stamped : n.expires ≡ clock.stamp + cache_ttl

  later :
      (e : Engine) (k : CacheKey) (n : CacheEntry) (s : Step) (steps : List Step)
      → FromCall e k n steps
      → FromCall e k n (s ∷ steps)
  later e k n s steps f = record {
    clock = f.clock;
    called = inr f.called;
    answer = f.answer;
    stamped = f.stamped;
  }

  -- Every entry is the answer of the engine as it is now at some call.
  abbrev Answers : Engine → Cache → List Step → Type 0
  Answers e m steps = (k : CacheKey) (n : CacheEntry) → get k m ≡ some n → FromCall e k n steps

  miss-Answers :
      (e : Engine) (j : CacheKey) (c : Clock) (steps : List Step) (m : Cache)
      → Answers e m steps
      → Answers e (on_miss range e m j c).1 (evaluate_step j c ∷ steps)
  unfolding on_miss
  miss-Answers e j c steps m v k n h =
      elim (get-cache_put range j (decide_at e j c) c.evict c.stamp m k n h) [
        | inl (same, written) ↦ record {
          clock = c;
          called = inl (ap (λ x. evaluate_step x c) (sym same));
          answer = ap (λ x. x.res) written ∙ ap (λ x. decide_at e x c) same;
          stamped = ap (λ x. x.expires) written;
        }
        | inr (other, old) ↦ later e k n (evaluate_step j c) steps (v k n old)
      ]

  lookup-Answers :
      (e : Engine) (j : CacheKey) (c : Clock) (steps : List Step) (o : Option Result) (m : Cache)
      → Answers e m steps
      → Answers e (on_lookup range e j c (o, m)).1 (evaluate_step j c ∷ steps)
  unfolding on_lookup
  lookup-Answers e j c steps none m v k n h = miss-Answers e j c steps m v k n h
  lookup-Answers e j c steps (some r) m v k n h = later e k n (evaluate_step j c) steps (v k n h)

  event-Answers :
      (ev : PolicyEvent) (w : Watch) (steps : List Step)
      → Answers w.engine w.cache steps
      → let now = on_event pb rules_range ev w in
        Answers now.engine now.cache (event_step ev ∷ steps)
  event-Answers ev w steps v k n h = elim (on_event_coherent pb rules_range ev w) [
    | inl (same_engine, same_cache) ↦
        later (on_event pb rules_range ev w).engine k n (event_step ev) steps (
          subst (λ e. FromCall e k n steps) (sym same_engine)
            (v k n (ap (get k) (sym same_cache) ∙ h)))
    | inr empty ↦ absurd (unfold get in ground arith)
  ]

  after-Answers :
      (e : Engine) (steps : List Step) → Answers (after e steps).engine (after e steps).cache steps
  unfolding after perform evaluate open_watch new_cache get
  after-Answers e [] k n h = absurd (ground (arith, h))
  after-Answers e (evaluate_step j c ∷ steps) k n h =
      let w = after e steps in
      let looked = cache_get j c.look w.cache in
      lookup-Answers w.engine j c steps looked.0 looked.1
        (λ i o g. after-Answers e steps i o (get-cache_get j c.look w.cache i o g)) k n h
  after-Answers e (event_step ev ∷ steps) k n h =
      event-Answers ev (after e steps) steps (after-Answers e steps) k n h

  on_lookup_cases :
      (e : Engine) (k : CacheKey) (c : Clock) (o : Option Result) (m : Cache)
      → let r = (on_lookup range e k c (o, m)).0 in (r ≡ decide_at e k c) ⊎ (o ≡ some r)
  unfolding on_lookup on_miss
  on_lookup_cases e k c none m = inl refl
  on_lookup_cases e k c (some r) m = inr refl

  -- From an empty cache on, whatever policy checks and policy events came before, one after the
  -- other, a check answers as the engine that is in force decides, at this call's clock reading or
  -- at that of an earlier check with the same key whose entry has not expired; no answer outlives
  -- the rule set it was given under.
  pub evaluate_is_current :
      (e : Engine) (steps : List Step) (k : CacheKey) (c : Clock)
      → let w = after e steps in
        let r = (evaluate range w.engine (some w.cache) k c).0 in
        (r ≡ decide_at w.engine k c)
        ⊎ ((early : Clock) × Elem (evaluate_step k early) steps
            × (r ≡ decide_at w.engine k early)
            × (c.look < early.stamp + cache_ttl))
  unfolding evaluate
  evaluate_is_current e steps k c =
      let w = after e steps in
      let r = (evaluate range w.engine (some w.cache) k c).0 in
      elim (on_lookup_cases w.engine k c (cache_get k c.look w.cache).0
        (cache_get k c.look w.cache).1) [
          | inl decided ↦ inl decided
          | inr hit ↦
              let (n, found, answer, live) = hit-entry k c.look w.cache r hit in
              let f = after-Answers e steps k n found in
              inr (f.clock, f.called, sym answer ∙ f.answer, subst (λ t. c.look < t) f.stamped live)
        ]

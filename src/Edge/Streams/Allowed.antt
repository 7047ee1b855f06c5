-- ===== src/Edge/Streams/Allowed.antt =====
-- pkg/edge/edge.go: a stream waits for its provider only where the policy allows it on both sides.
use outrelay_relay.Common.{
  Bytes, Option, some, List, Bool, true, false, ◌≡◌, ◌≢◌, arith, refl, if_cases, not, subst, sym,
  ap,
}
use outrelay_relay.Policy.Rules.{Decision, deny, P2pMode, RelayMode, combine_p2p_modes, Result}
use outrelay_relay.Policy.Engine.{Engine}
use outrelay_relay.Policy.Cache.{Cache, CacheKey}
use outrelay_relay.Edge.Evaluate.{evaluate}
use outrelay_relay.Edge.Pairs.{Pairs}
use outrelay_relay.Edge.Frames.{Write}
use outrelay_relay.Registry.{Provider, Resolution, local, err_provider_remote, failed, resolve}
use outrelay_relay.Edge.Streams.{
  CheckClock, Relay, OpenStream, Waiting, World, Turn, awaiting, is_deny, waiting_for, reject,
  check_with, check, record_stream, open_incoming, after_callee, after_resolve, resolve_stream,
  after_caller, open_stream, callee_key, caller_key,
}

not_denied : (d : Decision) → is_deny d ≡ false → d ≢ deny
not_denied d h = ground (arith, h)

module _ (world : World) (caller : Provider) (o : OpenStream) (w : Waiting) where
  record_stream-awaiting :
      (prov : Provider) (p2p : P2pMode) (mode : RelayMode) (sent : Write) (b : Bool × Pairs)
      (r : Relay)
      → (record_stream caller o prov p2p mode sent b r).phase ≡ awaiting w
      → w ≡ waiting_for caller o prov p2p mode
  unfolding record_stream reject
  record_stream-awaiting prov p2p mode sent (false, pairs) r h = ground (arith, h)
  record_stream-awaiting prov p2p mode sent (true, pairs) r h = ground (arith, h)

  open_incoming-awaiting :
      (prov : Provider) (p2p : P2pMode) (mode : RelayMode) (r : Relay)
      → (open_incoming world caller o prov p2p mode r).phase ≡ awaiting w
      → w ≡ waiting_for caller o prov p2p mode
  unfolding open_incoming reject
  open_incoming-awaiting prov p2p mode r =
      if_cases (λ (t : Turn). t.phase ≡ awaiting w → w ≡ waiting_for caller o prov p2p mode)
        (not (world.opens prov)) _ _ (λ failed h. ground (arith, h))
        λ opened. record_stream-awaiting prov p2p mode _ _ r

  after_callee-awaiting :
      (prov : Provider) (p2p : P2pMode) (mode : RelayMode) (callee : Result) (r : Relay)
      → (after_callee world caller o prov p2p mode (some callee, r)).phase ≡ awaiting w
      → (callee.decision ≢ deny)
        × (w ≡ waiting_for caller o prov (combine_p2p_modes p2p callee.p2p_mode) mode)
  unfolding after_callee reject
  after_callee-awaiting prov p2p mode callee r =
      if_cases
        (λ (t : Turn).
          t.phase ≡ awaiting w
          → (callee.decision ≢ deny)
            × (w ≡ waiting_for caller o prov (combine_p2p_modes p2p callee.p2p_mode) mode))
        (is_deny callee.decision) _ _ (λ denied h. absurd (ground (arith, h)))
        λ fine h. (
          not_denied callee.decision fine,
          open_incoming-awaiting prov (combine_p2p_modes p2p callee.p2p_mode) mode r h,
        )

  module _ (range : Cache → List CacheKey) (parse_tenant : Bytes → Option Bytes) (e : Engine) where
    check-on :
        (k : CacheKey) (t : CheckClock) (r : Relay)
        → r.policy ≡ some e
        → check range parse_tenant k t r ≡ (
          some (evaluate range e r.cache k t.evaluated).0,
          (check_with range parse_tenant e k t r).1,
        )
    unfolding check check_with
    check-on k t r on = ground arith

    -- What the second check says of the provider that the stream waits for.
    abbrev CalleeAllowed : P2pMode → RelayMode → Resolution → Relay → Type 0
    CalleeAllowed p2p mode found r =
        let second =
          (evaluate range e r.cache (callee_key caller o w.provider)
            world.callee_clock.evaluated).0 in
        (found ≡ local w.provider)
        × (second.decision ≢ deny)
        × (w ≡ waiting_for caller o w.provider (combine_p2p_modes p2p second.p2p_mode) mode)

    after_resolve-awaiting :
        (p2p : P2pMode) (mode : RelayMode) (found : Resolution) (r : Relay)
        → r.policy ≡ some e
        → (after_resolve range parse_tenant world caller o p2p mode found r).phase ≡ awaiting w
        → CalleeAllowed p2p mode found r
    unfolding after_resolve check check_with reject
    after_resolve-awaiting p2p mode (err_provider_remote remote) r on h = absurd (ground (arith, h))
    after_resolve-awaiting p2p mode (failed err) r on h = absurd (ground (arith, h))
    after_resolve-awaiting p2p mode (local prov) r on h =
        let key = callee_key caller o prov in
        let second = (evaluate range e r.cache key world.callee_clock.evaluated).0 in
        let (fine, made) =
          after_callee-awaiting prov p2p mode second
            (check_with range parse_tenant e key world.callee_clock r).1
            (subst
              (λ (c : Option Result × Relay).
                (after_callee world caller o prov p2p mode c).phase ≡ awaiting w)
              (check-on key world.callee_clock r on) h) in
        let same : prov ≡ w.provider = sym (ap (λ (x : Waiting). x.provider) made) in
        subst (λ (x : Provider). Met x) same (refl, fine, made)
      where
        Met : Provider → Type 0
        Met x =
            let s =
              (evaluate range e r.cache (callee_key caller o x) world.callee_clock.evaluated).0 in
            (local prov ≡ local x)
            × (s.decision ≢ deny)
            × (w ≡ waiting_for caller o x (combine_p2p_modes p2p s.p2p_mode) mode)

    after_caller-awaiting :
        (first : Result) (r : Relay)
        → r.policy ≡ some e
        → (after_caller range parse_tenant world caller o (some first, r)).phase ≡ awaiting w
        → (first.decision ≢ deny)
          × CalleeAllowed first.p2p_mode first.relay_mode
              (resolve parse_tenant world.controller caller.uri o.target_service r.reg)
              r
    unfolding after_caller resolve_stream reject
    after_caller-awaiting first r on =
        if_cases
          (λ (t : Turn).
            t.phase ≡ awaiting w
            → (first.decision ≢ deny)
              × CalleeAllowed first.p2p_mode first.relay_mode
                  (resolve parse_tenant world.controller caller.uri o.target_service r.reg) r)
          (is_deny first.decision) _ _ (λ denied h. absurd (ground (arith, h)))
          λ fine h. (
            not_denied first.decision fine,
            after_resolve-awaiting first.p2p_mode first.relay_mode
                (resolve parse_tenant world.controller caller.uri o.target_service r.reg) r on h,
          )

    -- Where a policy engine is set, a stream waits for a provider only if the directory resolves
    -- the service to that provider here, the engine's answer for the caller is not a denial, the
    -- answer for the provider that is asked for next is not one either, and the stream has the
    -- stricter of both sides' direct-path modes and the caller's relay mode.
    pub opened_is_allowed :
        (r : Relay)
        → r.policy ≡ some e
        → (open_stream range parse_tenant world caller o r).phase ≡ awaiting w
        → let first = evaluate range e r.cache (caller_key caller o) world.caller_clock.evaluated in
          let second =
            evaluate range e first.1
              (callee_key caller o w.provider)
              world.callee_clock.evaluated in
          (resolve parse_tenant world.controller caller.uri o.target_service r.reg
            ≡ local w.provider)
          × (first.0.decision ≢ deny)
          × (second.0.decision ≢ deny)
          × (w
              ≡ waiting_for caller o w.provider
                  (combine_p2p_modes first.0.p2p_mode second.0.p2p_mode)
                  first.0.relay_mode)
    unfolding open_stream check_with
    opened_is_allowed r on h =
        let key = caller_key caller o in
        let first = (evaluate range e r.cache key world.caller_clock.evaluated).0 in
        let checked = (check_with range parse_tenant e key world.caller_clock r).1 in
        let (fine, (found, fine_too, made)) = after_caller-awaiting first checked on (
          subst
            (λ (c : Option Result × Relay).
              (after_caller range parse_tenant world caller o c).phase ≡ awaiting w)
            (check-on key world.caller_clock r on) h) in
        (found, fine, fine_too, made)

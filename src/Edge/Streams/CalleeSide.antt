-- ===== src/Edge/Streams/CalleeSide.antt =====
-- pkg/edge/edge.go: the provider's side of the policy, for a provider here and one on another relay.
use outrelay_relay.Common.{
  Bytes, Option, some, List, [], true, false, ◌≡◌, ◌≢◌, arith, refl, Bool-cases, eq_iff, ap, inl,
  ◌∙◌, bytes_eq, inr, subst,
}
use outrelay_relay.Policy.Rules.{Decision, deny, allow, P2pMode, RelayMode}
use outrelay_relay.Policy.Engine.{Engine}
use outrelay_relay.Policy.Cache.{Cache, CacheKey}
use outrelay_relay.Edge.Evaluate.{evaluate}
use outrelay_relay.Registry.{Provider, Resolution, local, err_provider_remote, Remote, resolve}
use outrelay_relay.Edge.Streams.{
  CheckClock, Relay, OpenStream, World, Turn, refused, to_peer, is_deny, reject, check_with, check,
  after_callee, after_resolve, resolve_stream, after_caller, open_stream, callee_key, caller_key,
  has_pool,
}

is_deny_lem : (d : Decision) → is_deny d ≡ true → d ≡ deny
is_deny_lem deny h = refl
is_deny_lem allow h = ground (arith, h)

module _ (range : Cache → List CacheKey) (parse_tenant : Bytes → Option Bytes) (caller : Provider)
    (o : OpenStream) (r : Relay) (e : Engine) (on : r.policy ≡ some e) where
  -- Once the caller's side allows the stream, the resolution decides.
  open_stream-allowed :
      (world : World) (found : Resolution)
      → let first = evaluate range e r.cache (caller_key caller o) world.caller_clock.evaluated in
        first.0.decision ≢ deny
        → resolve parse_tenant world.controller caller.uri o.target_service r.reg ≡ found
        → open_stream range parse_tenant world caller o r
          ≡ after_resolve range parse_tenant world caller o first.0.p2p_mode first.0.relay_mode
              found
              (check_with range parse_tenant e (caller_key caller o) world.caller_clock r).1
  unfolding open_stream after_caller resolve_stream check check_with
  open_stream-allowed world found fine at =
      let first = (evaluate range e r.cache (caller_key caller o) world.caller_clock.evaluated).0 in
      let passes : is_deny first.decision ≡ false = elim (Bool-cases (is_deny first.decision)) [
        | inl denied ↦ absurd (fine (is_deny_lem first.decision denied))
        | inr passed ↦ passed
      ] in
      ground (arith, on, passes, at)

  after_resolve-local :
      (world : World) (p2p : P2pMode) (mode : RelayMode) (prov : Provider) (s : Relay)
      → s.policy ≡ some e
      → (evaluate range e s.cache
          (callee_key caller o prov)
          world.callee_clock.evaluated).0.decision
        ≡ deny
      → (after_resolve range parse_tenant world caller o p2p mode (local prov) s).phase ≡ refused
  unfolding after_resolve after_callee reject check check_with
  after_resolve-local world p2p mode prov s still denied = ground (arith, still, denied)

  after_resolve-remote :
      (world : World) (p2p : P2pMode) (mode : RelayMode) (remote : Remote) (s : Relay)
      → has_pool s.pool ≡ true
      → remote.endpoint ≢ []
      → (after_resolve range parse_tenant world caller o p2p mode
          (err_provider_remote remote)
          s).phase
        ≡ to_peer remote
  unfolding after_resolve reject
  after_resolve-remote world p2p mode remote s pooled named =
      ground (arith, pooled, eq_iff remote.endpoint [])

  -- Where the policy allows the caller's side and denies the provider's, a stream to a provider of
  -- this relay is refused, but the same stream goes to the peer relay when the provider is on
  -- another one, whatever the provider's side says.
  pub callee_check_only_local :
      (here there : World) (prov : Provider) (remote : Remote)
      → here.caller_clock ≡ there.caller_clock
      → resolve parse_tenant here.controller caller.uri o.target_service r.reg ≡ local prov
      → resolve parse_tenant there.controller caller.uri o.target_service r.reg
        ≡ err_provider_remote remote
      → has_pool r.pool ≡ true
      → remote.endpoint ≢ []
      → let first = evaluate range e r.cache (caller_key caller o) here.caller_clock.evaluated in
        first.0.decision ≢ deny
        → (evaluate range e first.1
            (callee_key caller o prov)
            here.callee_clock.evaluated).0.decision
          ≡ deny
        → ((open_stream range parse_tenant here caller o r).phase ≡ refused)
          × ((open_stream range parse_tenant there caller o r).phase ≡ to_peer remote)
  unfolding check_with
  callee_check_only_local here there prov remote clock near far pooled named fine denied =
      let first = (evaluate range e r.cache (caller_key caller o) here.caller_clock.evaluated).0 in
      let checked = (check_with range parse_tenant e (caller_key caller o) here.caller_clock r).1 in
      let first_there =
        (evaluate range e r.cache (caller_key caller o) there.caller_clock.evaluated).0 in
      (
        ap (λ (t : Turn). t.phase) (open_stream-allowed here (local prov) fine near)
            ∙ after_resolve-local here first.p2p_mode first.relay_mode prov checked on denied,
        ap (λ (t : Turn). t.phase)
              (open_stream-allowed there (err_provider_remote remote)
                (subst
                  (λ (t : CheckClock).
                    (evaluate range e r.cache (caller_key caller o) t.evaluated).0.decision ≢ deny)
                  clock fine)
                far)
            ∙ after_resolve-remote there first_there.p2p_mode first_there.relay_mode remote
                (check_with range parse_tenant e (caller_key caller o) there.caller_clock r).1
                pooled named,
      )

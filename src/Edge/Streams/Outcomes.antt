-- ===== src/Edge/Streams/Outcomes.antt =====
-- pkg/edge/edge.go: the ways in which `handleConsumerStream` leaves its first part.
use outrelay_relay.Common.{
  ℕ, Bytes, Option, none, some, List, [], ◌∷◌, Bool, true, false, ◌≡◌, arith, refl, inl, inr,
  if_cases, ◌==◌, nat_eq, not, Option-cases, ◌||◌, bytes_eq, ap, ◌++◌, sym,
}
use outrelay_relay.Policy.Rules.{P2pMode, RelayMode, Result}
use outrelay_relay.Policy.Cache.{Cache, CacheKey}
use outrelay_relay.Edge.Pairs.{Pairs, StreamPair, record_pair}
use outrelay_relay.Edge.Frames.{Write, reject_consumer}
use outrelay_relay.Registry.{Remote, Provider, Resolution, local, err_provider_remote, failed}
use outrelay_relay.Edge.Streams.{
  to_peer, awaiting, waiting_for, CheckClock, Relay, OpenStream, World, Turn, refused, is_deny,
  reject, check_with, check, record_stream, open_incoming, after_callee, after_resolve,
  resolve_stream, after_caller, open_stream, callee_key, caller_key, has_pool,
}

-- Nothing but the cache and the audit queue has changed.
abbrev pub Kept : Relay → Relay → Type 0
Kept r s =
    (s.reg ≡ r.reg)
    × (s.pairs ≡ r.pairs)
    × (s.forward ≡ r.forward)
    × (s.pool ≡ r.pool)
    × (s.policy ≡ r.policy)
    × (s.successors ≡ r.successors)

module _ (caller : Provider) (o : OpenStream) (r : Relay) where
  abbrev pub pair_of : Provider → StreamPair
  pair_of prov = record { consumer_uri = caller.uri; provider_uri = prov.uri }

  -- The stream is refused, goes to a peer relay, or waits with its pair recorded.
  pub data Outcome (t : Turn) : Type 0 where
    refuses :
        (before : List Write) (code : ℕ) (reason : Bytes) (s : Relay)
        → Kept r s
        → t ≡ record {
          phase = refused;
          writes = before ++ reject_consumer (some caller) o.stream_id code reason;
          relay = s;
        }
        → Outcome t
    goes :
        (remote : Remote) (s : Relay)
        → Kept r s
        → t ≡ record { phase = to_peer remote; writes = []; relay = s }
        → Outcome t
    waits :
        (prov : Provider) (p2p : P2pMode) (mode : RelayMode) (sent : Write) (s : Relay)
        → Kept r s
        → (record_pair o.stream_id (pair_of prov) r.pairs).0 ≡ true
        → t ≡ record {
          phase = awaiting (waiting_for caller o prov p2p mode);
          writes = sent ∷ [];
          relay = record s { pairs = (record_pair o.stream_id (pair_of prov) r.pairs).1 };
        }
        → Outcome t

  record_stream-Outcome :
      (prov : Provider) (p2p : P2pMode) (mode : RelayMode) (sent : Write) (b : Bool × Pairs)
      (s : Relay)
      → Kept r s
      → b ≡ record_pair o.stream_id (pair_of prov) r.pairs
      → Outcome (record_stream caller o prov p2p mode sent b s)
  unfolding record_stream reject
  record_stream-Outcome prov p2p mode sent (false, pairs) s k e = refuses (sent ∷ []) 409 _ s k refl
  record_stream-Outcome prov p2p mode sent (true, pairs) s k e =
      waits prov p2p mode sent s k (ap (λ (x : Bool × Pairs). x.0) (sym e)) (
        ap
          (λ (ps : Pairs). record {
            phase = awaiting (waiting_for caller o prov p2p mode);
            writes = sent ∷ [];
            relay = record s { pairs = ps };
          })
          (ap (λ (x : Bool × Pairs). x.1) e))

  module _ (range : Cache → List CacheKey) (parse_tenant : Bytes → Option Bytes)
      (world : World) where
    open_incoming-Outcome :
        (prov : Provider) (p2p : P2pMode) (mode : RelayMode) (s : Relay)
        → Kept r s
        → Outcome (open_incoming world caller o prov p2p mode s)
    unfolding open_incoming reject
    open_incoming-Outcome prov p2p mode s k =
        if_cases Outcome (not (world.opens prov)) _ _ (λ shut. refuses [] 502 _ s k refl)
          λ opened.
            record_stream-Outcome prov p2p mode _ _ s k
              (ap (record_pair o.stream_id (pair_of prov)) k.1)

    check-Kept :
        (key : CacheKey) (t : CheckClock) (s : Relay)
        → Kept r s
        → Kept r (check range parse_tenant key t s).1
    unfolding check check_with
    check-Kept key t s k = elim (Option-cases s.policy) [
      | inl off ↦ ground (arith, off)
      | inr (e, on) ↦ ground (arith, on)
    ]

    after_callee-Outcome :
        (prov : Provider) (p2p : P2pMode) (mode : RelayMode) (answer : Option Result) (s : Relay)
        → Kept r s
        → Outcome (after_callee world caller o prov p2p mode (answer, s))
    unfolding after_callee reject
    after_callee-Outcome prov p2p mode none s k = open_incoming-Outcome prov p2p mode s k
    after_callee-Outcome prov p2p mode (some callee) s k =
        if_cases Outcome (is_deny callee.decision) _ _ (λ denied. refuses [] 403 _ s k refl)
          λ fine. open_incoming-Outcome prov _ mode s k

    after_resolve-Outcome :
        (p2p : P2pMode) (mode : RelayMode) (found : Resolution) (s : Relay)
        → Kept r s
        → Outcome (after_resolve range parse_tenant world caller o p2p mode found s)
    unfolding after_resolve reject
    after_resolve-Outcome p2p mode (err_provider_remote remote) s k =
        if_cases Outcome (not (has_pool s.pool) || remote.endpoint == []) _ _
          (λ shut. refuses [] 502 _ s k refl) λ far. goes remote s k refl
    after_resolve-Outcome p2p mode (failed err) s k = refuses [] 404 _ s k refl
    after_resolve-Outcome p2p mode (local prov) s k =
        let checked = check range parse_tenant (callee_key caller o prov) world.callee_clock s in
        after_callee-Outcome prov p2p mode checked.0 checked.1
          (check-Kept (callee_key caller o prov) world.callee_clock s k)

    after_caller-Outcome :
        (answer : Option Result) (s : Relay)
        → Kept r s
        → Outcome (after_caller range parse_tenant world caller o (answer, s))
    unfolding after_caller resolve_stream reject
    after_caller-Outcome none s k = after_resolve-Outcome _ _ _ s k
    after_caller-Outcome (some dec) s k =
        if_cases Outcome (is_deny dec.decision) _ _ (λ denied. refuses [] 403 _ s k refl)
          λ fine. after_resolve-Outcome _ _ _ s k

    pub open_stream-Outcome : Outcome (open_stream range parse_tenant world caller o r)
    unfolding open_stream
    open_stream-Outcome =
        let checked = check range parse_tenant (caller_key caller o) world.caller_clock r in
        after_caller-Outcome checked.0 checked.1 (
          check-Kept (caller_key caller o) world.caller_clock r
            (refl, refl, refl, refl, refl, refl))

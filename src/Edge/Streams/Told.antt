-- ===== src/Edge/Streams/Told.antt =====
-- pkg/edge/edge.go: what the agent is told when a stream is refused before it waits for the provider.
use outrelay_relay.Common.{
  ℕ, Bytes, Option, some, List, ◌≡◌, ◌≢◌, arith, refl, inl, inr, Elem, if_cases, ◌==◌, nat_eq,
  bytes_eq, subst, ◌++◌, Elem-append_right, sym,
}
use outrelay_relay.Policy.Cache.{Cache, CacheKey}
use outrelay_relay.Edge.Streams.Outcomes.{Kept, refuses, goes, waits, open_stream-Outcome}
use outrelay_relay.Edge.Frames.{
  Write, stream_reject, ctrl_reject, reject_consumer, write_stream_reject,
}
use outrelay_relay.Registry.{Provider}
use outrelay_relay.Edge.Streams.{Relay, OpenStream, World, Turn, refused, open_stream}

-- The frames that a refusal ends with.
module _ (caller : Provider) (id : ℕ) (code : ℕ) (reason : Bytes) where
  abbrev BothTold : List Write → Type 0
  BothTold ws =
      Elem (stream_reject (record { code = code; reason = reason; stream_id = 0 })) ws
      × Elem (ctrl_reject caller.conn (record { code = code; reason = reason; stream_id = id })) ws

  reject_consumer-BothTold :
      id ≢ 0
      → (before : List Write) → BothTold (before ++ reject_consumer (some caller) id code reason)
  unfolding reject_consumer write_stream_reject
  reject_consumer-BothTold named before =
      if_cases (λ (ws : List Write). BothTold (before ++ ws)) (id == 0) _ _
        (λ zero_id. absurd (named (ground (arith, zero_id))))
        λ other.
          (Elem-append_right _ before _ (inl refl), Elem-append_right _ before _ (inr (inl refl)))

module _ (range : Cache → List CacheKey) (parse_tenant : Bytes → Option Bytes) (world : World)
    (caller : Provider) (o : OpenStream) (r : Relay) where
  -- When a stream whose id is not 0 is refused before it waits for a provider, the consumer's
  -- stream and the consumer's control stream are both told the same code and reason, and nothing
  -- but the decision cache and the audit queue has changed: the directory, the pairs, the plane,
  -- the pool, the policy engine and the successor list are as they were.
  pub refused_is_told :
      o.stream_id ≢ 0
      → let t = open_stream range parse_tenant world caller o r in
        t.phase ≡ refused
        → (code : ℕ) × (reason : Bytes) × Elem
            (stream_reject (record { code = code; reason = reason; stream_id = 0 }))
            t.writes
          × Elem
              (ctrl_reject caller.conn
                (record { code = code; reason = reason; stream_id = o.stream_id }))
              t.writes
          × Kept r t.relay
  refused_is_told named h = elim (open_stream-Outcome caller o r range parse_tenant world) [
    | refuses before code reason s k e ↦
        let (told, also) =
          subst (λ (t : Turn). BothTold caller o.stream_id code reason t.writes) (sym e)
            (reject_consumer-BothTold caller o.stream_id code reason named before) in
        (code, reason, told, also, subst (λ (t : Turn). Kept r t.relay) (sym e) k)
    | goes remote s k e ↦ absurd (ground (arith, e, h))
    | waits prov p2p mode sent s k ok e ↦ absurd (ground (arith, e, h))
  ]

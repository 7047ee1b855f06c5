-- ===== src/Edge/Peer/Reach.antt =====
-- pkg/edge/edge.go: where a stream that goes to a peer relay ends up.
use outrelay_relay.Registry.{
  Registry, Provider, ServiceProvider, ResolveRequest, Remote, Resolution, local,
  err_provider_remote, failed, lookup_agent, tenant_of, pick, resolve,
}
use outrelay_relay.Intra.{forward_frame}
use outrelay_relay.Edge.Frames.{IncomingStream, write_stream_reject}
use outrelay_relay.Edge.Streams.Answer.{
  Ack, stream_accept, unreadable, stream_reject_frame, other_frame,
}
use outrelay_relay.Edge.Peer.{
  Served, refuse_peer, is_accept, answer_peer, on_resolution, handle_forwarded, ℕ, Bytes,
}
use outrelay_relay.Common.{
  ℕ, Bytes, ◌≡◌, Option, true, some, List, [], Bool, if_cases, ◌↔◌, none, arith, Option-cases, Elem,
  bytes_eq, inr, codes, inl, eq_iff, refl, not, Bool-cases, ◌∷◌,
}

is_accept_iff : (ack : Ack) → (is_accept ack ≡ true) ↔ (ack ≡ stream_accept)
unfolding is_accept
is_accept_iff stream_accept = ground arith
is_accept_iff unreadable = ground arith
is_accept_iff stream_reject_frame = ground arith
is_accept_iff other_frame = ground arith

module _ (parse_tenant : Bytes → Option Bytes)
    (controller : ResolveRequest → Option (List ServiceProvider)) (opens : Provider → Bool)
    (ack : Ack) (accept_ok : Bool) (successors : List Bytes) (sent : IncomingStream)
    (reg : Registry) where
  abbrev Right : Resolution → Served → Type 0
  Right found served =
      ((prov : Provider)
        → (served.provider ≡ some prov) ↔ (
            (found ≡ local prov)
            × (opens prov ≡ true)
            × (ack ≡ stream_accept)
            × (accept_ok ≡ true)))
      × (served.provider ≡ none
          → accept_ok ≡ true
          → (code : ℕ) × (reason : Bytes) × Elem (write_stream_reject code reason) served.writes)

  answer_peer-none :
      (prov : Provider)
      → (answer_peer prov ack accept_ok).provider ≡ none
      → accept_ok ≡ true
      → (code : ℕ) × (reason : Bytes) × Elem
          (write_stream_reject code reason)
          (answer_peer prov ack accept_ok).writes
  unfolding answer_peer refuse_peer
  answer_peer-none prov h ok = elim (Bool-cases (is_accept ack)) [
    | inl accepts ↦ absurd (ground (arith, accepts, ok, h))
    | inr rejects ↦ (503, codes "provider rejected", rw rejects (inl refl))
  ]

  on_resolution-Right :
      (found : Resolution) → Right found (on_resolution opens ack accept_ok successors sent found)
  unfolding on_resolution refuse_peer answer_peer
  on_resolution-Right (err_provider_remote remote) = (
    λ prov. ground arith,
    λ h ok. (503, codes "no local provider for forwarded stream", inl refl),
  )
  on_resolution-Right (failed err) = (
    λ prov. ground arith,
    λ h ok. (503, codes "no local provider for forwarded stream", inl refl),
  )
  on_resolution-Right (local prov) =
      if_cases (Right (local prov)) (not (opens prov)) _ _
        (λ shut. (λ x. ground (arith, shut), λ h ok. (502, codes "provider open failed", inl refl)))
        λ opened. (
          λ x. ground (arith, opened, is_accept_iff ack),
          λ h ok. let (code, reason, told) = answer_peer-none prov h ok in (code, reason, inr told),
        )

  -- A forwarded stream is spliced exactly with the provider that the directory resolves it to here, if its
  -- stream can be opened, it accepts and the answer can be written; where none is and the answer could
  -- have been written, the peer is told a rejection.
  pub handle_forwarded_lem :
      let served =
        handle_forwarded parse_tenant controller opens ack accept_ok successors (some sent) reg in
      ((prov : Provider)
        → (served.provider ≡ some prov) ↔ (
            (resolve parse_tenant controller sent.source_agent_uri sent.target_service reg
              ≡ local prov)
            × (opens prov ≡ true)
            × (ack ≡ stream_accept)
            × (accept_ok ≡ true)))
      × (served.provider ≡ none
          → accept_ok ≡ true
          → (code : ℕ) × (reason : Bytes) × Elem (write_stream_reject code reason) served.writes)
  unfolding handle_forwarded
  handle_forwarded_lem =
      on_resolution-Right
        (resolve parse_tenant controller sent.source_agent_uri sent.target_service reg)

module _ (parse_tenant : Bytes → Option Bytes) (remote : Remote) (prov : Provider) (a b : Registry)
    (here : b.relay_id ≡ remote.relay_id)
    (found : lookup_agent remote.agent_uri b ≡ some prov) where
  pick-elsewhere :
      (providers : List ServiceProvider)
      → pick parse_tenant providers a ≡ err_provider_remote remote
      → pick parse_tenant providers b ≡ local prov
  unfolding pick lookup_agent
  pick-elsewhere [] goes = absurd (ground (arith, goes))
  pick-elsewhere (p ∷ rest) goes = ground (arith, goes, here, found, eq_iff p.relay_id b.relay_id)

  module _ (near far : ResolveRequest → Option (List ServiceProvider)) (caller_uri name : Bytes)
      (same : far (record {
        tenant = tenant_of parse_tenant caller_uri;
        service_name = name;
        caller_region = b.region;
      })
        ≡ near (record {
          tenant = tenant_of parse_tenant caller_uri;
          service_name = name;
          caller_region = a.region;
        }))
      (goes : resolve parse_tenant near caller_uri name a ≡ err_provider_remote remote) where
    abbrev request : Registry → ResolveRequest
    request r = record {
      tenant = tenant_of parse_tenant caller_uri;
      service_name = name;
      caller_region = r.region;
    }

    resolve-elsewhere : resolve parse_tenant far caller_uri name b ≡ local prov
    unfolding resolve
    resolve-elsewhere = elim (Option-cases (near (request a))) [
      | inl failing ↦ absurd (ground (arith, failing, goes))
      | inr (providers, listed) ↦ ground (arith, same, listed, goes, pick-elsewhere providers)
    ]

    -- When a relay sends a stream to the peer relay that the controller names and the controller
    -- answers the peer the same, the peer splices the forwarded stream with the agent that the
    -- first relay was told of, provided that this agent is connected there, its stream can be
    -- opened, it accepts and the answer can be written.
    pub forwarded_meets_agent :
        (method : Bytes) (opens : Provider → Bool) (successors : List Bytes)
        → opens prov ≡ true
        → (handle_forwarded parse_tenant far opens stream_accept true successors
            (some (forward_frame name method caller_uri))
            b).provider
          ≡ some prov
    unfolding handle_forwarded forward_frame
    forwarded_meets_agent method opens successors opened =
        ((handle_forwarded_lem parse_tenant far opens stream_accept true successors
              (forward_frame name method caller_uri) b).0
            prov).1
          (resolve-elsewhere, opened, refl, refl)

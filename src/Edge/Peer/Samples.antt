-- ===== src/Edge/Peer/Samples.antt =====
-- A stream from one relay to another.
use outrelay_relay.Registry.{
  Provider, Registry, ServiceProvider, ResolveRequest, Remote, err_provider_remote, resolve,
  lookup_agent,
}
use outrelay_relay.Intra.{rejected, forward_stream, new_pool, forward_frame}
use outrelay_relay.Edge.Frames.{reject_consumer}
use outrelay_relay.Edge.Streams.{OpenStream}
use outrelay_relay.Edge.Streams.Answer.{stream_accept}
use outrelay_relay.Edge.Peer.{forward_to_peer, handle_forwarded, ◌∷◌, Bytes, Option, true, [], some}
use outrelay_relay.Edge.Peer.Reach.{forwarded_meets_agent}
use outrelay_relay.Edge.Peer.Settled.{forward_to_peer_lem}
use outrelay_relay.Common.{
  bytes_eq, ◌∷◌, Bytes, Option, ◌≡◌, true, [], some, List, ℕ, refl, get, false, none, ◌≢◌,
}

abbrev alice : Provider
alice = record { conn = 1; uri = 65 ∷ [] }

abbrev bob : Provider
bob = record { conn = 2; uri = 66 ∷ [] }

abbrev tenant : Bytes → Option Bytes
tenant uri = some (84 ∷ [])

abbrev listed : ResolveRequest → Option (List ServiceProvider)
listed request =
    some (record { relay_id = 8 ∷ []; relay_endpoint = 7 ∷ []; agent_uri = bob.uri } ∷ [])

abbrev remote_bob : Remote
remote_bob = record { relay_id = 8 ∷ []; endpoint = 7 ∷ []; agent_uri = bob.uri }

abbrev near : Registry
near = record { relay_id = 9 ∷ []; region = []; agent_conns = (65 ∷ [], alice) ∷ [] }

abbrev far : Registry
far = record { relay_id = 8 ∷ []; region = []; agent_conns = (66 ∷ [], bob) ∷ [] }

abbrev printer : Bytes
printer = 80 ∷ []

goes : resolve tenant listed alice.uri printer near ≡ err_provider_remote remote_bob
unfolding resolve outrelay_relay.Common.bytes_beq outrelay_relay.Registry.tenant_of
goes = refl

bob_found : lookup_agent bob.uri far ≡ some bob
unfolding lookup_agent outrelay_relay.Common.get outrelay_relay.Common.bytes_beq
bob_found = refl

forwarded_meets_agent_example :
    (handle_forwarded tenant listed
      (λ prov. true)
      stream_accept
      true
      []
      (some (forward_frame printer [] alice.uri))
      far).provider
    ≡ some bob
forwarded_meets_agent_example =
    forwarded_meets_agent tenant remote_bob bob near far refl bob_found listed listed alice.uri
      printer refl goes [] (λ prov. true) [] refl

abbrev asks : OpenStream
asks = record { target_service = printer; method = []; stream_id = 5 }

-- The peer rejects on the fresh connection 4.
forward_to_peer_example :
    let f = forward_to_peer alice asks remote_bob (some 4) (λ c. rejected) new_pool in
    (f.spliced ≡ true
      → (c : ℕ) × (get (8 ∷ []) f.pool.conns ≡ some c)
        × (forward_stream rejected ≡ true)
        × (f.writes ≡ []))
    × (f.spliced ≡ false
        → (reason : Bytes) × (get (8 ∷ []) f.pool.conns ≡ none)
          × (f.writes ≡ reject_consumer (some alice) 5 502 reason))
    × ((id : Bytes) → id ≢ 8 ∷ [] → get id f.pool.conns ≡ get id new_pool.conns)
forward_to_peer_example =
    forward_to_peer_lem alice asks remote_bob (λ c. rejected) (some 4) new_pool

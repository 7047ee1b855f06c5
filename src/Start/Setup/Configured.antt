-- ===== src/Start/Setup/Configured.antt =====
-- cmd/outrelay-relay/main.go: which parts a relay has that serves, and whom it accepts.
use outrelay_relay.Common.{
  Bytes, ℕ, Option, none, some, true, List, [], ◌≡◌, ◌≢◌, arith, if_cases, ◌==◌, bytes_eq, eq_iff,
  refl, subst, not, false,
}
use outrelay_relay.Forward.State.{Plane, new_plane}
use outrelay_relay.Registry.Fleet.{RelayInstance}
use outrelay_relay.Registry.{new_registry}
use outrelay_relay.Edge.System.{new_server, set_successors}
use outrelay_relay.Start.Tls.{
  TlsConfig, require_and_verify_client_cert, load_server_tls, listening, pool_of, Credentials,
  insecure, with_tls, controller_creds, tls_creds, intra_tls, as_client,
}
use outrelay_relay.Start.Setup.{
  Flags, Surroundings, Service, Startup, prints_version, exits, serves, when_tenant, path_missing,
  serve, with_plane, with_fleet, dial_controller, with_creds, with_conf, start,
}

-- Agents must show a certificate under the pool that the CA file gives, and peers that are dialed one of the
-- same pool that names a relay; so must the controller where its client uses TLS. The relay shows the
-- certificate of its key pair.
pub record Guarded (f : Flags) (out : Surroundings) (v : Service) : Type 0 where
  pub cert : ℕ
  pub own_cert : out.key_pair ≡ some cert
  pub shown : (v.listens.certificate ≡ cert) × (v.dials.certificate ≡ cert)
  pub pem : Bytes
  pub file : out.ca_pem ≡ some pem
  pub pool : ℕ
  pub file_pool : out.append_certs pem ≡ some pool
  pub agents_verified : v.listens.client_auth ≡ require_and_verify_client_cert
  pub agents_pool : v.listens.client_cas ≡ some pool
  pub peers_pool : v.dials.root_cas ≡ some pool
  pub peers_relays : v.dials.verifies_relay ≡ true
  pub controller_pool :
      f.controller_tls ≡ true → (c : TlsConfig) × (v.creds ≡ with_tls c) × (c.root_cas ≡ some pool)

-- The policy parts are there with a tenant, and none of them without; the plane is there with an address
-- to listen on; and nobody has been served.
pub record Equipped (f : Flags) (v : Service) : Type 0 where
  pub enforcing :
      f.policy_tenant ≢ []
      → (v.relay.policy ≢ none) × (v.relay.cache ≢ none) × (v.relay.audit ≢ none)
  pub open_to_all :
      f.policy_tenant ≡ []
      → (v.relay.policy ≡ none) × (v.relay.cache ≡ none) × (v.relay.audit ≡ none)
  pub plane : f.listen_forward ≢ [] → v.relay.forward ≡ some new_plane
  pub no_plane : f.listen_forward ≡ [] → v.relay.forward ≡ none
  pub nobody : v.relay.reg.agent_conns ≡ []
  pub no_pairs : v.relay.pairs ≡ []

abbrev Configured : Flags → Surroundings → Service → Type 0
Configured f out v = Guarded f out v × Equipped f v

-- What is true of a startup that serves.
abbrev Serving : Flags → Surroundings → Startup → Type 0
Serving f out prints_version = Unit
Serving f out (exits code) = Unit
Serving f out (serves v) = Configured f out v

module _ {A : Type 0} (f : Flags) (part : A) where
  with_tenant : f.policy_tenant ≢ [] → when_tenant f part ≢ none
  unfolding when_tenant
  with_tenant named e = named ((eq_iff f.policy_tenant []).0 (ground arith))

  no_tenant : f.policy_tenant ≡ [] → when_tenant f part ≡ none
  unfolding when_tenant
  no_tenant unnamed = ground (arith, eq_iff f.policy_tenant [])

module _ (sort : List RelayInstance → List RelayInstance) (f : Flags) (out : Surroundings)
    (conf : TlsConfig) (cert : ℕ) (own_cert : out.key_pair ≡ some cert)
    (shown : conf.certificate ≡ cert) (pem : Bytes) (file : out.ca_pem ≡ some pem) (pool : ℕ)
    (file_pool : out.append_certs pem ≡ some pool)
    (verified : conf.client_auth ≡ require_and_verify_client_cert)
    (known : conf.client_cas ≡ some pool) (creds : Credentials)
    (matching : f.controller_tls ≡ true
      → (c : TlsConfig) × (creds ≡ with_tls c) × (c.root_cas ≡ some pool)) where
  serve-Serving :
      (fleet : List RelayInstance) (plane : Option Plane)
      → (f.listen_forward ≢ [] → plane ≡ some new_plane)
      → (f.listen_forward ≡ [] → plane ≡ none)
      → Serving f out (serve sort f out conf creds fleet plane)
  unfolding serve new_server new_registry set_successors intra_tls as_client
  serve-Serving fleet plane on off = (
    record {
      cert = cert;
      own_cert = own_cert;
      shown = (shown, shown);
      pem = pem;
      file = file;
      pool = pool;
      file_pool = file_pool;
      agents_verified = verified;
      agents_pool = known;
      peers_pool = known;
      peers_relays = refl;
      controller_pool = matching;
    },
    record {
      enforcing = λ named. (with_tenant f _ named, with_tenant f _ named, with_tenant f _ named);
      open_to_all =
          λ unnamed. (no_tenant f _ unnamed, no_tenant f _ unnamed, no_tenant f _ unnamed);
      plane = on;
      no_plane = off;
      nobody = refl;
      no_pairs = refl;
    },
  )

  with_plane-Serving :
      (fleet : List RelayInstance) → Serving f out (with_plane sort f out conf creds fleet)
  unfolding with_plane
  with_plane-Serving fleet =
      if_cases (Serving f out) (f.listen_forward == []) _ _
        (λ off.
          serve-Serving fleet none (λ named. absurd (named ((eq_iff f.listen_forward []).0 off)))
            λ unnamed. refl)
        λ on.
          if_cases (Serving f out) (out.forward_bound f.listen_forward) _ _
            (λ bound.
              serve-Serving fleet (some new_plane) (λ named. refl)
                λ unnamed. absurd (ground (arith, eq_iff f.listen_forward [])))
            λ failed. tt

  with_fleet-Serving :
      (fleet : Option (List RelayInstance)) → Serving f out (with_fleet sort f out conf creds fleet)
  unfolding with_fleet
  with_fleet-Serving none = tt
  with_fleet-Serving (some fleet) = with_plane-Serving fleet

  dial_controller-Serving : Serving f out (dial_controller sort f out conf creds)
  unfolding dial_controller
  dial_controller-Serving =
      if_cases (Serving f out) out.client_made _ _ (λ made. with_fleet-Serving _) λ failed. tt

module _ (sort : List RelayInstance → List RelayInstance) (f : Flags) (out : Surroundings) where
  with_conf-Serving :
      (cert : ℕ) (pem : Bytes) (pool : ℕ)
      → out.key_pair ≡ some cert
      → out.ca_pem ≡ some pem
      → out.append_certs pem ≡ some pool
      → Serving f out (with_conf sort f out (pool_of cert (some pool)))
  unfolding with_conf pool_of with_creds controller_creds tls_creds as_client
  with_conf-Serving cert pem pool own file given =
      let conf = listening cert pool in
      if_cases (λ (c : Credentials). Serving f out (with_creds sort f out conf c))
        (not f.controller_tls) insecure (with_tls (as_client conf))
        (λ off.
          dial_controller-Serving sort f out conf cert own refl pem file pool given refl refl
            insecure λ tls. absurd (ground arith))
        λ on.
          dial_controller-Serving sort f out conf cert own refl pem file pool given refl refl
            (with_tls (as_client conf)) λ tls. (as_client conf, refl, refl)

  pooled-Serving :
      (cert : ℕ) (pem : Bytes) (pool : Option ℕ)
      → out.key_pair ≡ some cert
      → out.ca_pem ≡ some pem
      → out.append_certs pem ≡ pool
      → Serving f out (with_conf sort f out (pool_of cert pool))
  unfolding pool_of with_conf
  pooled-Serving cert pem none own file given = tt
  pooled-Serving cert pem (some pool) own file given =
      with_conf-Serving cert pem pool own file given

  loaded-Serving :
      (key_pair : Option ℕ) (ca_pem : Option Bytes)
      → out.key_pair ≡ key_pair
      → out.ca_pem ≡ ca_pem
      → Serving f out (with_conf sort f out (load_server_tls key_pair ca_pem out.append_certs))
  unfolding load_server_tls with_conf
  loaded-Serving none ca_pem own file = tt
  loaded-Serving (some cert) none own file = tt
  loaded-Serving (some cert) (some pem) own file =
      pooled-Serving cert pem (out.append_certs pem) own file refl

  start-Serving : Serving f out (start sort f out)
  unfolding start
  start-Serving =
      if_cases (Serving f out) f.show_version _ _ (λ shown. tt)
        λ hidden.
          if_cases (Serving f out) (path_missing f) _ _ (λ missing. tt)
            λ given. loaded-Serving out.key_pair out.ca_pem refl refl

  paths_given : (v : Service) → start sort f out ≡ serves v → path_missing f ≡ false
  unfolding start
  paths_given v e = ground (arith, e)

  -- A relay that main lets serve has the paths of its certificate, key and CA set; it shows the
  -- certificate of its key pair, asks agents for a certificate under the CA pool that was parsed
  -- from the CA file, accepts under the same pool only relays where it dials a peer, and asks the
  -- controller for one where its client uses TLS; it enforces a policy, with a cache and an audit
  -- queue, exactly when a tenant is set, and has a fresh plane exactly when an address for it is
  -- set; nobody is registered and no pair is recorded.
  pub serving_is_configured :
      (v : Service)
      → start sort f out ≡ serves v
      → (f.cert_path ≢ []) × (f.key_path ≢ []) × (f.ca_path ≢ []) × Guarded f out v × Equipped f v
  unfolding path_missing
  serving_is_configured v e =
      let given = paths_given v e in
      let (guarded, equipped) = subst (Serving f out) e start-Serving in
      (
        ground (arith, given, eq_iff f.cert_path []),
        ground (arith, given, eq_iff f.key_path []),
        ground (arith, given, eq_iff f.ca_path []),
        guarded,
        equipped,
      )

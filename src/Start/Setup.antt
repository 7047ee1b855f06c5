-- ===== src/Start/Setup.antt =====
-- cmd/outrelay-relay/main.go: `main`, from the flags to the server that accepts connections. What the files,
-- the sockets and the controller answer is an argument; `sort` stands for `slices.SortFunc`.
pub mod Configured
use outrelay_relay.Common.{
  Bytes, ℕ, Option, none, some, Bool, List, [], if◌then◌else◌, ◌==◌, bytes_eq, ◌||◌, codes, false,
  true, ◌*◌,
}
use outrelay_relay.Policy.Engine.{new_engine}
use outrelay_relay.Policy.Cache.{new_cache}
use outrelay_relay.Audit.{new_emitter}
use outrelay_relay.Intra.{new_pool}
use outrelay_relay.Forward.State.{Plane, new_plane}
use outrelay_relay.Registry.{new_registry}
use outrelay_relay.Registry.Fleet.{
  default_heartbeat_period, RelayInstance, successors, Heartbeat, new_heartbeat, on_successors,
}
use outrelay_relay.Edge.Streams.{Relay}
use outrelay_relay.Edge.System.{new_server, set_successors}
use outrelay_relay.Start.{or_listen}
use outrelay_relay.Start.Tls.{
  TlsConfig, load_server_tls, Credentials, insecure, with_tls, missing_tls, controller_creds,
  intra_tls,
}

pub record Flags : Type 0 where
  pub listen : Bytes
  pub listen_tcp : Bytes
  pub listen_forward : Bytes
  pub cert_path : Bytes
  pub key_path : Bytes
  pub ca_path : Bytes
  pub controller_addr : Bytes
  pub controller_tls : Bool
  pub relay_id : Bytes
  pub region : Bytes
  pub advertised : Bytes
  pub heartbeat : ℕ
  pub drain_on_signal : Bool
  pub drain_to : Bytes
  pub drain_timeout : ℕ
  pub policy_tenant : Bytes
  pub debug_listen : Bytes
  pub metrics_dump : Bytes
  pub metrics_interval : ℕ
  pub log_format : Bytes
  pub log_level : Bytes
  pub show_version : Bool

abbrev second : ℕ
second = 1_000_000_000

-- The flags where none is given; durations are in nanoseconds.
unfoldable pub default_flags : Flags
default_flags = record {
  listen = codes "127.0.0.1:7443";
  listen_tcp = [];
  listen_forward = [];
  cert_path = [];
  key_path = [];
  ca_path = [];
  controller_addr = codes "127.0.0.1:7444";
  controller_tls = false;
  relay_id = [];
  region = codes "local";
  advertised = [];
  heartbeat = default_heartbeat_period;
  drain_on_signal = true;
  drain_to = [];
  drain_timeout = 10 * second;
  policy_tenant = [];
  debug_listen = codes "127.0.0.1:9100";
  metrics_dump = [];
  metrics_interval = 10 * second;
  log_format = codes "text";
  log_level = codes "info";
  show_version = false;
}

-- The key pair, the bytes of the CA file, the pool that they give, whether the client of the controller
-- could be made, the fleet that it answers with, and whether the socket of the plane could be bound.
pub record Surroundings : Type 0 where
  pub key_pair : Option ℕ
  pub ca_pem : Option Bytes
  pub append_certs : Bytes → Option ℕ
  pub client_made : Bool
  pub upsert : Bytes → Bytes → Bytes → Option (List RelayInstance)
  pub forward_bound : Bytes → Bool

-- The relay that serves, with the configuration that it listens with, the one that its pool dials with,
-- the credentials of its client of the controller, and the heartbeat, whose subscriber 0 is
-- `srv.SetSuccessors`.
pub record Service : Type 0 where
  pub relay : Relay
  pub listens : TlsConfig
  pub dials : TlsConfig
  pub creds : Credentials
  pub heartbeat : Heartbeat

pub data Startup : Type 0 where
  prints_version : Startup
  exits : ℕ → Startup
  serves : Service → Startup

-- With no tenant there is no enforcement.
unfoldable pub when_tenant {ℓ} : {A : Type ℓ} → Flags → A → Option A
when_tenant f part = if f.policy_tenant == [] then none else some part

unfoldable pub path_missing : Flags → Bool
path_missing f = f.cert_path == [] || f.key_path == [] || f.ca_path == []

module _ (sort : List RelayInstance → List RelayInstance) (f : Flags) (out : Surroundings) where
  unfoldable pub serve : TlsConfig → Credentials → List RelayInstance → Option Plane → Startup
  unfolding when_tenant or_listen
  serve conf creds fleet plane =
      let id = or_listen f.relay_id f.listen in
      serves (record {
        relay = set_successors (successors sort id f.region fleet) (
            new_server (new_registry id f.region) (when_tenant f new_engine)
              (when_tenant f new_cache) (when_tenant f new_emitter) (some new_pool) plane);
        listens = conf;
        dials = intra_tls conf;
        creds = creds;
        heartbeat =
            on_successors 0
              (new_heartbeat id f.region (or_listen f.advertised f.listen) f.heartbeat);
      })

  unfoldable pub with_plane : TlsConfig → Credentials → List RelayInstance → Startup
  unfolding serve
  with_plane conf creds fleet =
      if f.listen_forward == []
      then serve conf creds fleet none
      else if out.forward_bound f.listen_forward
      then serve conf creds fleet (some new_plane)
      else exits 1

  unfoldable pub with_fleet : TlsConfig → Credentials → Option (List RelayInstance) → Startup
  unfolding with_plane
  with_fleet conf creds none = exits 1
  with_fleet conf creds (some fleet) = with_plane conf creds fleet

  unfoldable pub dial_controller : TlsConfig → Credentials → Startup
  unfolding with_fleet or_listen
  dial_controller conf creds =
      if out.client_made
      then with_fleet conf creds
          (out.upsert (or_listen f.relay_id f.listen) f.region (or_listen f.advertised f.listen))
      else exits 1

  unfoldable pub with_creds : TlsConfig → Credentials → Startup
  unfolding dial_controller
  with_creds conf missing_tls = exits 1
  with_creds conf insecure = dial_controller conf insecure
  with_creds conf (with_tls c) = dial_controller conf (with_tls c)

  unfoldable pub with_conf : Option TlsConfig → Startup
  unfolding with_creds
  with_conf none = exits 1
  with_conf (some conf) = with_creds conf (controller_creds f.controller_tls (some conf))

  unfoldable pub start : Startup
  unfolding with_conf path_missing
  start =
      if f.show_version
      then prints_version
      else if path_missing f
      then exits 2
      else with_conf (load_server_tls out.key_pair out.ca_pem out.append_certs)

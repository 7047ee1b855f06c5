-- ===== src/Start/Tls.antt =====
-- cmd/outrelay-relay/main.go: the TLS configurations that the relay listens and dials with. A certificate
-- with its key and a pool of CAs are told by a number; what is read from the files, and how the library
-- parses it, is an argument.
use outrelay_relay.Common.{
  Bytes, ℕ, Option, none, some, Bool, true, false, codes, if◌then◌else◌, not, [],
}

-- `tls.ClientAuthType`: the zero value, and the one that the relay listens with.
pub data ClientAuth : Type 0 where
  no_client_cert require_and_verify_client_cert : ClientAuth

-- The fields of `tls.Config` that are set; `verifies_relay` where `VerifyConnection` is
-- `verifyPeerIsRelay`, and not where it is nil. A version of 0 is the default of the library.
pub record TlsConfig : Type 0 where
  pub certificate : ℕ
  pub client_cas : Option ℕ
  pub root_cas : Option ℕ
  pub client_auth : ClientAuth
  pub server_name : Bytes
  pub min_version : ℕ
  pub verifies_relay : Bool

abbrev pub version_tls13 : ℕ
version_tls13 = 0x0304

abbrev pub listening : ℕ → ℕ → TlsConfig
listening cert pool = record {
  certificate = cert;
  client_cas = some pool;
  root_cas = none;
  client_auth = require_and_verify_client_cert;
  server_name = [];
  min_version = version_tls13;
  verifies_relay = false;
}

unfoldable pub pool_of : ℕ → Option ℕ → Option TlsConfig
pool_of cert none = none
pool_of cert (some pool) = some (listening cert pool)

-- `loadServerTLS`: the key pair, the bytes of the CA file, and the pool that they give.
unfoldable pub load_server_tls : Option ℕ → Option Bytes → (Bytes → Option ℕ) → Option TlsConfig
unfolding pool_of
load_server_tls none ca_pem append_certs = none
load_server_tls (some cert) none append_certs = none
load_server_tls (some cert) (some pem) append_certs = pool_of cert (append_certs pem)

-- `Clone`, and the fields that both client configurations set.
unfoldable pub as_client : TlsConfig → TlsConfig
as_client c = record c {
  client_cas = none;
  client_auth = no_client_cert;
  root_cas = c.client_cas;
  server_name = codes "localhost";
}

unfoldable pub intra_tls : TlsConfig → TlsConfig
unfolding as_client
intra_tls c = record (as_client c) { verifies_relay = true }

-- `credentials.TransportCredentials`, or the error.
pub data Credentials : Type 0 where
  insecure : Credentials
  with_tls : TlsConfig → Credentials
  missing_tls : Credentials

unfoldable pub tls_creds : Option TlsConfig → Credentials
unfolding as_client
tls_creds none = missing_tls
tls_creds (some c) = with_tls (as_client c)

unfoldable pub controller_creds : Bool → Option TlsConfig → Credentials
unfolding tls_creds
controller_creds enable_tls server_conf = if not enable_tls then insecure else tls_creds server_conf

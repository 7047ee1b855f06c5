-- ===== src/Edge/Handshake/Samples.antt =====
-- A connection with the certificate of one agent.
use outrelay_relay.Registry.{Provider, lookup_agent}
use outrelay_relay.Edge.Sessions.{Server, attach}
use outrelay_relay.Edge.Handshake.{
  Role, other_role, Incoming, agent, uri_from_conn, serve_conn, Bytes, ◌∷◌, [],
}
use outrelay_relay.Edge.Handshake.Certified.{attached_is_certified}
use outrelay_relay.Common.{Bytes, ◌∷◌, [], ◌≡◌, some, Option, none, ◌↔◌, true, ◌≢◌}

abbrev alice : Bytes
alice = 65 ∷ []

abbrev arrives : Incoming
arrives = record {
  conn = 1;
  certificates = (alice ∷ []) ∷ [];
  hello = some alice;
  acknowledged = true;
}

abbrev any_agent : Bytes → Option Role
any_agent uri = some other_role

abbrev idle : Server
idle = record {
  agents = [];
  reg = record { relay_id = 9 ∷ []; region = []; agent_conns = [] };
  forward = none;
  sent = [];
}

attached_is_certified_example :
    let (admission, after) = serve_conn any_agent arrives idle in
    ((ac : Provider)
      → (admission ≡ agent ac) ↔ (
          (uri_from_conn arrives.certificates ≡ some ac.uri)
          × (any_agent ac.uri ≡ some other_role)
          × (some alice ≡ some ac.uri)
          × (arrives.acknowledged ≡ true)
          × (arrives.conn ≡ ac.conn)))
    × ((ac : Provider)
        → admission ≡ agent ac
        → (lookup_agent ac.uri after.reg ≡ some ac) × (after ≡ attach ac idle))
    × (((ac : Provider) → admission ≢ agent ac) → after ≡ idle)
attached_is_certified_example = attached_is_certified any_agent arrives idle

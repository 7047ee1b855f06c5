-- ===== src/Edge/Handshake.antt =====
-- pkg/edge/edge.go: `uriFromConn` and the checks of `serveConn` before a connection is served.
-- `parse_role` stands for the role that `identity.Parse` reads in a name.
pub mod Certified
mod Samples
use outrelay_relay.Registry.{Provider}
use outrelay_relay.Edge.Sessions.{Server, attach}
use outrelay_relay.Common.{
  ℕ, Bytes, List, Option, Bool, none, some, ◌∷◌, if◌then◌else◌, not, [], ◌==◌, bytes_eq,
}

-- The role of a relay, or any other one.
pub data Role : Type 0 where
  role_relay other_role : Role

-- The URIs of each certificate of the peer, and what comes next on the connection: the name in the HELLO
-- frame, where there is a control stream that such a frame can be read from, and whether HELLO_ACK can be
-- written.
pub record Incoming : Type 0 where
  pub conn : ℕ
  pub certificates : List (List Bytes)
  pub hello : Option Bytes
  pub acknowledged : Bool

pub data Admission : Type 0 where
  turned_away : Admission
  peer_relay : Bytes → Admission
  agent : Provider → Admission

unfoldable pub uri_from_conn : List (List Bytes) → Option Bytes
uri_from_conn [] = none
uri_from_conn ([] ∷ certs) = none
uri_from_conn ((uri ∷ uris) ∷ certs) = some uri

unfoldable pub admit_agent : Incoming → Bytes → Option Bytes → Server → Admission × Server
admit_agent c uri none s = (turned_away, s)
admit_agent c uri (some agent_uri) s =
    if not (agent_uri == uri)
    then (turned_away, s)
    else if not c.acknowledged
    then (turned_away, s)
    else (let ac : Provider = record { conn = c.conn; uri = uri } in (agent ac, attach ac s))

unfoldable pub admit_role : Incoming → Bytes → Option Role → Server → Admission × Server
unfolding admit_agent
admit_role c uri none s = (turned_away, s)
admit_role c uri (some role_relay) s = (peer_relay uri, s)
admit_role c uri (some other_role) s = admit_agent c uri c.hello s

unfoldable pub admit_uri :
    (Bytes → Option Role) → Incoming → Option Bytes → Server → Admission × Server
unfolding admit_role
admit_uri parse_role c none s = (turned_away, s)
admit_uri parse_role c (some uri) s = admit_role c uri (parse_role uri) s

unfoldable pub serve_conn : (Bytes → Option Role) → Incoming → Server → Admission × Server
unfolding admit_uri uri_from_conn
serve_conn parse_role c s = admit_uri parse_role c (uri_from_conn c.certificates) s

-- ===== src/Edge/Handshake/Certified.antt =====
-- pkg/edge/edge.go: under which name a connection is attached.
use outrelay_relay.Registry.{Provider, register_agent, lookup_agent}
use outrelay_relay.Edge.Sessions.{Server, attach, track_agent, register_conn}
use outrelay_relay.Edge.Handshake.{
  Role, other_role, role_relay, Incoming, Admission, agent, uri_from_conn, admit_agent, admit_role,
  admit_uri, serve_conn, Bytes,
}
use outrelay_relay.Common.{
  Bytes, Option, ◌≡◌, ◌↔◌, some, true, ◌≢◌, arith, subst, if_cases, none, get-put, not, eq_refl,
  ◌==◌, eq_iff, refl, bytes_eq,
}

agent_inj : (a b : Provider) → agent a ≡ agent b → a ≡ b
agent_inj a b e = ground (arith, e)

module _ (parse_role : Bytes → Option Role) (c : Incoming) (s : Server) where
  -- What an admission has to be, where `P` says of a connection that it is to be attached.
  abbrev Right : (Provider → Type 0) → Admission × Server → Type 0
  Right P r =
      ((ac : Provider) → (r.0 ≡ agent ac) ↔ P ac)
      × ((ac : Provider)
          → r.0 ≡ agent ac
          → (lookup_agent ac.uri r.1.reg ≡ some ac) × (r.1 ≡ attach ac s))
      × (((ac : Provider) → r.0 ≢ agent ac) → r.1 ≡ s)

  abbrev Greets : Bytes → Option Bytes → Provider → Type 0
  Greets uri hello ac =
      (uri ≡ ac.uri) × (hello ≡ some ac.uri) × (c.acknowledged ≡ true) × (c.conn ≡ ac.conn)

  attached-Right :
      (uri : Bytes)
      → c.acknowledged ≡ true
      → let ac : Provider = record { conn = c.conn; uri = uri } in
        Right (Greets uri (some uri)) (agent ac, attach ac s)
  unfolding attach track_agent register_conn register_agent lookup_agent
  attached-Right uri ack =
      let ac : Provider = record { conn = c.conn; uri = uri } in
      (
        λ other. ground (arith, ack),
        λ other e.
            subst
              (λ (x : Provider).
                (lookup_agent x.uri (attach ac s).reg ≡ some x) × (attach ac s ≡ attach x s))
              (agent_inj ac other e)
              (ground (arith, get-put uri uri ac s.reg.agent_conns, eq_refl uri), refl),
        λ no. absurd (no ac refl),
      )

  admit_agent-Right :
      (uri : Bytes) (hello : Option Bytes) → Right (Greets uri hello) (admit_agent c uri hello s)
  unfolding admit_agent
  admit_agent-Right uri none = (λ ac. ground arith, λ ac e. absurd (ground (arith, e)), λ no. refl)
  admit_agent-Right uri (some name) =
      if_cases (Right (Greets uri (some name))) (not (name == uri)) _ _
        (λ differs. (
          λ ac. ground (arith, differs, eq_iff name uri),
          λ ac e. absurd (ground (arith, e)),
          λ no. refl,
        ))
        λ same.
          if_cases (Right (Greets uri (some name))) (not c.acknowledged) _ _
            (λ lost. (λ ac. ground (arith, lost), λ ac e. absurd (ground (arith, e)), λ no. refl))
            λ ack.
              subst
                (λ (n : Bytes). Right (Greets uri (some n)) (
                  agent (record { conn = c.conn; uri = uri }),
                  attach (record { conn = c.conn; uri = uri }) s,
                ))
                (ground (arith, same, eq_iff name uri)) (attached-Right uri (ground (arith, ack)))

  abbrev Certified : Option Bytes → Provider → Type 0
  Certified found ac =
      (found ≡ some ac.uri)
      × (parse_role ac.uri ≡ some other_role)
      × (c.hello ≡ some ac.uri)
      × (c.acknowledged ≡ true)
      × (c.conn ≡ ac.conn)

  admit_role-Right :
      (uri : Bytes) (role : Option Role)
      → parse_role uri ≡ role
      → Right (Certified (some uri)) (admit_role c uri role s)
  unfolding admit_role
  admit_role-Right uri none e =
      (λ ac. ground (arith, e), λ ac e. absurd (ground (arith, e)), λ no. refl)
  admit_role-Right uri (some role_relay) e =
      (λ ac. ground (arith, e), λ ac e. absurd (ground (arith, e)), λ no. refl)
  admit_role-Right uri (some other_role) e =
      let (same, put_in, kept) = admit_agent-Right uri c.hello in
      (λ ac. ground (arith, e, same ac), put_in, kept)

  admit_uri-Right :
      (found : Option Bytes) → Right (Certified found) (admit_uri parse_role c found s)
  unfolding admit_uri
  admit_uri-Right none = (λ ac. ground arith, λ ac e. absurd (ground (arith, e)), λ no. refl)
  admit_uri-Right (some uri) = admit_role-Right uri (parse_role uri) refl

  -- A connection is attached as an agent exactly where its certificate names the agent, the name
  -- has another role than a relay's, HELLO claims the same name and HELLO_ACK could be written;
  -- the directory then gives this connection for the name, and where none is attached nothing
  -- changes.
  pub attached_is_certified :
      let (admission, after) = serve_conn parse_role c s in
      ((ac : Provider)
        → (admission ≡ agent ac) ↔ (
            (uri_from_conn c.certificates ≡ some ac.uri)
            × (parse_role ac.uri ≡ some other_role)
            × (c.hello ≡ some ac.uri)
            × (c.acknowledged ≡ true)
            × (c.conn ≡ ac.conn)))
      × ((ac : Provider)
          → admission ≡ agent ac
          → (lookup_agent ac.uri after.reg ≡ some ac) × (after ≡ attach ac s))
      × (((ac : Provider) → admission ≢ agent ac) → after ≡ s)
  unfolding serve_conn
  attached_is_certified = admit_uri-Right (uri_from_conn c.certificates)

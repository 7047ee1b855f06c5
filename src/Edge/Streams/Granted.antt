-- ===== src/Edge/Streams/Granted.antt =====
-- pkg/edge/edge.go: what the two agents of a forwarded stream are granted, and what is left of it when
-- the handler ends.
use outrelay_relay.Policy.Rules.{RelayMode, splice, forward}
use outrelay_relay.Forward.State.{Plane}
use outrelay_relay.Forward.Index.{Inv}
use outrelay_relay.Forward.Alloc.{u32_mod, forget}
use outrelay_relay.Forward.Grants
use outrelay_relay.Forward.Grants.{PairGrant, Granting, grants, allocate_pair}
use outrelay_relay.Registry.{Provider, lookup_agent}
use outrelay_relay.Edge.Pairs.{forget_pair}
use outrelay_relay.Edge.Frames.{alloc_granted}
use outrelay_relay.Edge.Streams.{Relay, Waiting, Bytes}
use outrelay_relay.Edge.Streams.Answer.{
  Ack, unreadable, stream_accept, stream_reject_frame, other_frame, forwarding, returns, splicing,
  crashes, Answered, refuse, splice_streams, grant, write_grants, second_grant, first_grant,
  grant_allocs, start_stream, on_ack, allocs_of, forget_all, finish, returns, splicing, crashes,
}
use outrelay_relay.Common.{
  true, false, none, some, sym, subst, Bytes, ℕ, ◌≡◌, some, ◌≢◌, [], ◌+◌, ◌<◌, true, Bool, Option,
  get, ◌∷◌, arith, nat_eq, refl, ap,
}

module _ (fwd_endpoint : Bytes) (w : Waiting) (r : Relay) (p : Plane) (now later : ℕ)
    (plane_on : r.forward ≡ some p) (v : Inv p) (caller_named : w.caller.uri ≢ [])
    (room : p.next_id + 2 < u32_mod) where
  abbrev pub with_plane : Plane → Relay
  with_plane q = record r { forward = some q }

  -- When the provider accepts a stream of relay mode forward, both control streams can be written
  -- to, the tables of the plane agree, both names are not empty and ids have not run out, the two
  -- agents are granted two different allocations that were free, each owned by its agent; the
  -- frame to either one names its own allocation as its own and the other agent's as the peer's,
  -- with the id of the stream, the endpoint of the plane and the successors; every other
  -- allocation is as it was.
  pub granted_pair :
      (prov : Provider)
      → w.relay_mode ≡ forward
      → lookup_agent w.provider.uri r.reg ≡ some prov
      → prov.uri ≢ []
      → (c : ℕ) × (d : ℕ) × (q : Plane) × PairGrant p w.caller.uri prov.uri c d q
        × (on_ack fwd_endpoint w stream_accept now later true true r ≡ record {
          course = forwarding c d;
          writes =
              alloc_granted w.caller.conn (record {
                stream_id = w.open_frame.stream_id;
                my_allocation = c;
                peer_allocation = d;
                forward_endpoint = fwd_endpoint;
                resume_relays = r.successors;
              })
              ∷ alloc_granted prov.conn (record {
                stream_id = w.open_frame.stream_id;
                my_allocation = d;
                peer_allocation = c;
                forward_endpoint = fwd_endpoint;
                resume_relays = r.successors;
              })
              ∷ [];
          relay = with_plane q;
        })
  unfolding on_ack start_stream grant_allocs first_grant second_grant write_grants grant
  granted_pair prov mode found named =
      elim (allocate_pair w.caller.uri prov.uri now later p v caller_named named room) [
        | grants c d between q one two g ↦ (c, d, q, g, ground (arith, one, two))
      ]

  -- What the handler holds when it ends: nothing, or two allocations.
  pub data Held (a : Answered) : Type 0 where
    nothing : allocs_of a.course ≡ [] → a.course ≢ crashes → a.relay ≡ r → Held a
    two :
        (prov : Provider) (c d : ℕ) (q : Plane)
        → lookup_agent w.provider.uri r.reg ≡ some prov
        → PairGrant p w.caller.uri prov.uri c d q
        → allocs_of a.course ≡ d ∷ c ∷ []
        → a.relay ≡ with_plane q
        → Held a

  write_grants-Held :
      (prov : Provider) (c d : ℕ) (q : Plane) (consumer_ok provider_ok : Bool)
      → lookup_agent w.provider.uri r.reg ≡ some prov
      → PairGrant p w.caller.uri prov.uri c d q
      → Held (write_grants fwd_endpoint w prov c d consumer_ok provider_ok (with_plane q))
  unfolding write_grants
  write_grants-Held prov c d q false provider_ok found g = two prov c d q found g refl refl
  write_grants-Held prov c d q true false found g = two prov c d q found g refl refl
  write_grants-Held prov c d q true true found g = two prov c d q found g refl refl

  grant_allocs-Held :
      (found : Option Provider) (consumer_ok provider_ok : Bool)
      → lookup_agent w.provider.uri r.reg ≡ found
      → ((prov : Provider) → found ≡ some prov → prov.uri ≢ [])
      → Held (grant_allocs fwd_endpoint w p found now later consumer_ok provider_ok r)
  unfolding grant_allocs first_grant second_grant refuse
  grant_allocs-Held none consumer_ok provider_ok e named =
      nothing refl (λ (h : returns [] ≡ crashes). ground arith) refl
  grant_allocs-Held (some prov) consumer_ok provider_ok e named =
      elim (allocate_pair w.caller.uri prov.uri now later p v caller_named (named prov refl) room) [
        | grants c d between q one also g ↦
            rw (one, also) (write_grants-Held prov c d q consumer_ok provider_ok e g)
      ]

  module _
      (named : (prov : Provider)
        → lookup_agent w.provider.uri r.reg ≡ some prov
        → prov.uri ≢ []) where
    start_stream-Held :
        (mode : RelayMode) (consumer_ok provider_ok : Bool)
        → Held (start_stream fwd_endpoint w mode r.forward now later consumer_ok provider_ok r)
    unfolding start_stream splice_streams
    start_stream-Held splice consumer_ok provider_ok =
        nothing refl (λ (h : splicing ≡ crashes). ground arith) refl
    start_stream-Held forward consumer_ok provider_ok =
        subst
          (λ (plane : Option Plane).
            Held (start_stream fwd_endpoint w forward plane now later consumer_ok provider_ok r))
          (sym plane_on)
          (grant_allocs-Held (lookup_agent w.provider.uri r.reg) consumer_ok provider_ok refl named)

    pub on_ack-Held :
        (ack : Ack) (consumer_ok provider_ok : Bool)
        → Held (on_ack fwd_endpoint w ack now later consumer_ok provider_ok r)
    unfolding on_ack refuse
    on_ack-Held unreadable consumer_ok provider_ok =
        nothing refl (λ (h : returns [] ≡ crashes). ground arith) refl
    on_ack-Held stream_accept consumer_ok provider_ok =
        start_stream-Held w.relay_mode consumer_ok provider_ok
    on_ack-Held stream_reject_frame consumer_ok provider_ok =
        nothing refl (λ (h : returns [] ≡ crashes). ground arith) refl
    on_ack-Held other_frame consumer_ok provider_ok =
        nothing refl (λ (h : returns [] ≡ crashes). ground arith) refl

    Released : Relay → Type 0
    Released s =
        (q : Plane) × (s.forward ≡ some q) × Inv q × ((i : ℕ) → get i q.by_alloc ≡ get i p.by_alloc)

    finish-Released : (a : Answered) → Held a → Released (finish w a.course a.relay)
    unfolding finish forget_all Released
    finish-Released a (nothing ids sane kept) = (p, rw (ids, kept, plane_on) refl, v, λ i. refl)
    finish-Released a (two prov c d q found g ids kept) = (
      forget c (forget d q),
      rw (ids, kept) refl,
      Grants.taken_back-Inv p w.caller.uri prov.uri c d q g,
      Grants.get-taken_back p w.caller.uri prov.uri c d q g,
    )

    pairs_kept : (a : Answered) → Held a → a.relay.pairs ≡ r.pairs
    pairs_kept a (nothing ids sane kept) = ap (λ (s : Relay). s.pairs) kept
    pairs_kept a (two prov c d q found g ids kept) = ap (λ (s : Relay). s.pairs) kept

    -- Whatever the provider answers to a stream that waits, and whichever of the frames to the
    -- agents can be written, once the deferred calls have run the pair of the stream is forgotten,
    -- every allocation of the plane is as it was before the answer, and the tables agree; this is
    -- for tables that agree before, names that are not empty and ids that have not run out.
    pub finish_releases :
        (ack : Ack) (consumer_ok provider_ok : Bool)
        → let a = on_ack fwd_endpoint w ack now later consumer_ok provider_ok r in
          let s = finish w a.course a.relay in
          (s.pairs ≡ forget_pair w.open_frame.stream_id r.pairs)
          × ((q : Plane) × (s.forward ≡ some q)
              × Inv q
              × ((i : ℕ) → get i q.by_alloc ≡ get i p.by_alloc))
    unfolding finish Released
    finish_releases ack consumer_ok provider_ok =
        let a = on_ack fwd_endpoint w ack now later consumer_ok provider_ok r in
        let held = on_ack-Held ack consumer_ok provider_ok in
        (ap (forget_pair w.open_frame.stream_id) (pairs_kept a held), finish-Released a held)

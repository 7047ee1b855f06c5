-- ===== src/Edge/System/Answering.antt =====
-- pkg/edge/edge.go: the provider's answer, a resumed forwarded stream and the end of a handler, on the
-- tables that all handlers share.
use outrelay_relay.Common.{
  ℕ, ◌+◌, ◌<◌, ◌≤◌, Option, none, some, [], ◌∷◌, Bool, true, ◌≡◌, ◌≢◌, ◌⊎◌, inl, inr, arith, Bytes,
  get, put, get-put, eq_iff, refl, nat_eq, subst, sym, ap, Elem, ◌==◌, bytes_eq, Bool-cases, ◌∙◌,
}
use outrelay_relay.Policy.Rules.{RelayMode, splice, forward}
use outrelay_relay.Forward.State.{Plane, AllocEntry}
use outrelay_relay.Forward.Alloc.{u32_mod}
use outrelay_relay.Forward.Views.{owner_at, owned_by}
use outrelay_relay.Forward.Grants.{PairGrant}
use outrelay_relay.Registry.{Provider, lookup_agent}
use outrelay_relay.Edge.Streams.{Relay, Waiting}
use outrelay_relay.Edge.Streams.Answer.{
  Ack, unreadable, stream_accept, stream_reject_frame, other_frame, Course, returns, splicing,
  crashes, Answered, allocs_of, on_ack, start_stream, refuse, splice_streams,
}
use outrelay_relay.Edge.Streams.Granted.{Held, nothing, two, on_ack-Held}
use outrelay_relay.Edge.System.{Outside, Process, System, answered, waits, runs, splices}
use outrelay_relay.Edge.System.Acts.{answer_as}
use outrelay_relay.Edge.System.Allocs.{Sound, counter_in, owner_in, ids_of}
use outrelay_relay.Edge.System.Allocs.Moves.{next-Allocs}
use outrelay_relay.Edge.System.Rows.{Rows, Names, next-Rows}
use outrelay_relay.Edge.System.Safe.{Safe, Stepped, stay-Stepped}

-- A course with nothing to give back.
abbrev Idle : Relay → Answered → Type 0
Idle r a = (allocs_of a.course ≡ []) × (a.course ≢ crashes) × (a.relay ≡ r)

-- Without a plane nothing is granted.
start_stream-off :
    (fwd_endpoint : Bytes) (w : Waiting) (mode : RelayMode) (r : Relay) (now later : ℕ)
    (consumer_ok provider_ok : Bool)
    → Idle r (start_stream fwd_endpoint w mode none now later consumer_ok provider_ok r)
unfolding start_stream splice_streams
start_stream-off fwd_endpoint w splice r now later consumer_ok provider_ok =
    (refl, λ (h : splicing ≡ crashes). ground arith, refl)
start_stream-off fwd_endpoint w forward r now later consumer_ok provider_ok =
    (refl, λ (h : splicing ≡ crashes). ground arith, refl)

on_ack-off :
    (fwd_endpoint : Bytes) (w : Waiting) (r : Relay) (now later : ℕ) (ack : Ack)
    (consumer_ok provider_ok : Bool)
    → r.forward ≡ none
    → Idle r (on_ack fwd_endpoint w ack now later consumer_ok provider_ok r)
unfolding on_ack refuse
on_ack-off fwd_endpoint w r now later unreadable consumer_ok provider_ok off =
    (refl, λ (h : returns [] ≡ crashes). ground arith, refl)
on_ack-off fwd_endpoint w r now later stream_accept consumer_ok provider_ok off =
    subst
      (λ (f : Option Plane).
        Idle r (start_stream fwd_endpoint w w.relay_mode f now later consumer_ok provider_ok r))
      (sym off) (start_stream-off fwd_endpoint w w.relay_mode r now later consumer_ok provider_ok)
on_ack-off fwd_endpoint w r now later stream_reject_frame consumer_ok provider_ok off =
    (refl, λ (h : returns [] ≡ crashes). ground arith, refl)
on_ack-off fwd_endpoint w r now later other_frame consumer_ok provider_ok off =
    (refl, λ (h : returns [] ≡ crashes). ground arith, refl)

owner_of_owned :
    (u uri : Bytes) (found : Option AllocEntry)
    → owned_by u found ≡ true
    → owner_at found ≡ some uri
    → uri ≡ u
owner_of_owned u uri none own at = ground arith
owner_of_owned u uri (some entry) own at = ground (arith, eq_iff entry.uri u)

-- An owner after a pair of grants is an owner from before, or that of one of the two.
pub news_of_pair :
    (p q : Plane) (first second : Bytes) (c d id : ℕ) (uri : Bytes)
    → PairGrant p first second c d q
    → owner_at (get id q.by_alloc) ≡ some uri
    → (owner_at (get id p.by_alloc) ≡ some uri)
      ⊎ (((id ≡ c) × (uri ≡ first)) ⊎ ((id ≡ d) × (uri ≡ second)))
news_of_pair p q first second c d id uri g at = elim (Bool-cases (id == c)) [
  | inl one ↦
      let here = (eq_iff id c).0 one in
      inr (
        inl (
          here,
          owner_of_owned first uri (get c q.by_alloc) g.first_owned
              (subst (λ (i : ℕ). owner_at (get i q.by_alloc) ≡ some uri) here at),
        ))
  | inr apart ↦ elim (Bool-cases (id == d)) [
    | inl also ↦
        let here = (eq_iff id d).0 also in
        inr (
          inr (
            here,
            owner_of_owned second uri (get d q.by_alloc) g.second_owned
                (subst (λ (i : ℕ). owner_at (get i q.by_alloc) ≡ some uri) here at),
          ))
    | inr far ↦ inl (
        ap owner_at (sym (g.others id (ground (arith, eq_iff id c)) (ground (arith, eq_iff id d))))
        ∙ at)
  ]
]

module _ (s : System) (v : Safe s) (n : ℕ) (w : Waiting)
    (here : get n s.streams ≡ some (waits w)) where
  run_Names : (course : Course) → Names s.conns s.relay.reg (put n (runs w course) s.streams)
  run_Names course = record {
    connected = v.names.connected;
    directory = v.names.directory;
    callers = λ m other e.
        v.names.callers m other (ground (arith, get-put n m (runs w course) s.streams));
  }

  run_Rows : (course : Course) → Rows s.relay.pairs (put n (runs w course) s.streams)
  run_Rows course =
      next-Rows s.relay.pairs s.streams v.rows n (runs w course) s.relay.pairs
        (λ y e. ground (arith, here)) (λ id p h. inl h) v.rows.unnamed

  idle_before : (y : Process) → get n s.streams ≡ some y → ids_of y ≡ []
  idle_before y e = ground (arith, here)

  unheld-Stepped : (a : Answered) → Idle s.relay a → Stepped s (answered n w a s)
  unfolding answered
  unheld-Stepped a (empty, sane, kept) =
      subst
        (λ (r : Relay).
          Stepped s (record s { relay = r; streams = put n (runs w a.course) s.streams }))
        (sym kept)
        (
          record {
            names = run_Names a.course;
            allocs =
                next-Allocs s.relay.forward s.streams s.resumed v.allocs n (runs w a.course)
                  s.relay.forward idle_before (λ id uri h. inl h)
                  (λ id i. absurd (subst (Elem id) empty i)) (omega arith) v.allocs.sound sane;
            rows = run_Rows a.course;
          },
          omega arith,
        )

  module _ (p : Plane) (plane_on : s.relay.forward ≡ some p) where
    granted_news :
        (prov : Provider) (c d : ℕ) (q : Plane) (course : Course)
        → lookup_agent w.provider.uri s.relay.reg ≡ some prov
        → PairGrant p w.caller.uri prov.uri c d q
        → allocs_of course ≡ d ∷ c ∷ []
        → (id : ℕ) (uri : Bytes) → owner_in id (some q) ≡ some uri
        → (owner_in id s.relay.forward ≡ some uri)
          ⊎ (Elem id (ids_of (runs w course)) × Elem uri (w.caller.uri ∷ w.provider.uri ∷ []))
    granted_news prov c d q course found g ids id uri at =
        elim (news_of_pair p q w.caller.uri prov.uri c d id uri g at) [
          | inl was ↦ inl (ap (owner_in id) plane_on ∙ was)
          | inr (inl (i, u)) ↦ inr (subst (Elem id) (sym ids) (inr (inl i)), inl u)
          | inr (inr (i, u)) ↦ inr (
            subst (Elem id) (sym ids) (inl i),
            inr (inl (u ∙ (v.names.directory w.provider.uri prov found).0)),
          )
        ]

    granted-Stepped :
        (a : Answered) (prov : Provider) (c d : ℕ) (q : Plane)
        → lookup_agent w.provider.uri s.relay.reg ≡ some prov
        → PairGrant p w.caller.uri prov.uri c d q
        → allocs_of a.course ≡ d ∷ c ∷ []
        → a.relay ≡ record s.relay { forward = some q }
        → Stepped s (answered n w a s)
    unfolding answered
    granted-Stepped a prov c d q found g ids kept =
        subst
          (λ (r : Relay).
            Stepped s (record s { relay = r; streams = put n (runs w a.course) s.streams }))
          (sym kept)
          (
            record {
              names = run_Names a.course;
              allocs =
                  next-Allocs s.relay.forward s.streams s.resumed v.allocs n (runs w a.course)
                    (some q) idle_before (granted_news prov c d q a.course found g ids)
                    (λ id i. new_ids id (subst (Elem id) ids i))
                    (omega (arith, ap counter_in plane_on, g.advanced)) g.agree
                    λ broken. absurd (ground (arith, ap allocs_of broken, ids));
              rows = run_Rows a.course;
            },
            omega (arith, ap counter_in plane_on, g.advanced),
          )
      where
        new_ids :
            (id : ℕ) → Elem id (d ∷ c ∷ []) → (counter_in s.relay.forward < id) × (id ≤ q.next_id)
        new_ids id (inl e) = omega (arith, e, ap counter_in plane_on, g.counted)
        new_ids id (inr (inl e)) = omega (arith, e, ap counter_in plane_on, g.counted)
        new_ids id (inr (inr x)) = elim x [ ]

    either-Stepped :
        (fwd_endpoint : Bytes) (now later : ℕ) (named : w.caller.uri ≢ [])
        (room : p.next_id + 2 < u32_mod) (a : Answered)
        → Held fwd_endpoint w s.relay p now later plane_on
            (subst Sound plane_on v.allocs.sound)
            named
            room
            a
        → Stepped s (answered n w a s)
    either-Stepped fwd_endpoint now later named room a (nothing empty sane kept) =
        unheld-Stepped a (empty, sane, kept)
    either-Stepped fwd_endpoint now later named room a (two prov c d q found g ids kept) =
        granted-Stepped a prov c d q found g ids kept

  acked-Stepped :
      (fwd_endpoint : Bytes) (ack : Ack) (now later : ℕ) (consumer_ok provider_ok : Bool)
      (f : Option Plane)
      → s.relay.forward ≡ f
      → counter_in s.relay.forward + 2 < u32_mod
      → Stepped s
          (answered n w (on_ack fwd_endpoint w ack now later consumer_ok provider_ok s.relay) s)
  acked-Stepped fwd_endpoint ack now later consumer_ok provider_ok none off room =
      unheld-Stepped _ (on_ack-off fwd_endpoint w s.relay now later ack consumer_ok provider_ok off)
  acked-Stepped fwd_endpoint ack now later consumer_ok provider_ok (some p) on room =
      let named = v.names.callers n w here in
      let fits : p.next_id + 2 < u32_mod = omega (arith, room, ap counter_in on) in
      either-Stepped p on fwd_endpoint now later named fits _ (
        on_ack-Held fwd_endpoint w s.relay p now later on (subst Sound on v.allocs.sound) named fits
          (λ prov found. (v.names.directory w.provider.uri prov found).1) ack consumer_ok
          provider_ok)

pub answer-Stepped :
    (out : Outside) (s : System) (v : Safe s) (n : ℕ) (ack : Ack) (now later : ℕ)
    (consumer_ok provider_ok : Bool) (found : Option Process)
    → get n s.streams ≡ found
    → counter_in s.relay.forward + 2 < u32_mod
    → Stepped s (answer_as out n ack now later consumer_ok provider_ok found s)
unfolding answer_as
answer-Stepped out s v n ack now later consumer_ok provider_ok none here room = stay-Stepped s v
answer-Stepped out s v n ack now later consumer_ok provider_ok (some (waits w)) here room =
    acked-Stepped s v n w here out.fwd_endpoint ack now later consumer_ok provider_ok
      s.relay.forward refl room
answer-Stepped out s v n ack now later consumer_ok provider_ok (some (runs w course)) here room =
    stay-Stepped s v
answer-Stepped out s v n ack now later consumer_ok provider_ok (some (splices id self peer)) here
      room =
    stay-Stepped s v

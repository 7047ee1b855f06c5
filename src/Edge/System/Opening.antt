-- ===== src/Edge/System/Opening.antt =====
-- pkg/edge/edge.go: OPEN_STREAM, and halves that come back, on the tables that all handlers share.
use outrelay_relay.Common.{
  ℕ, Option, none, some, ◌≡◌, ◌≢◌, arith, get, put, get-put, eq_iff, refl, nat_eq, subst, sym, ◌⊎◌,
  inl, inr, [], Bool-cases, ap, Elem, ◌==◌,
}
use outrelay_relay.Registry.{Provider, Registry}
use outrelay_relay.Edge.Pairs.{Pairs, StreamPair, record_pair, replace_pair}
use outrelay_relay.Edge.Halves.{
  Half, handle_resume_half, handle_migrate_to_relay, splice_pair, splice_back,
}
use outrelay_relay.Edge.Migrated.{MigratedStream}
use outrelay_relay.Edge.Streams.{Relay, OpenStream, Waiting, World, Turn, waiting_for}
use outrelay_relay.Edge.Streams.Outcomes.{
  Kept, pair_of, Outcome, refuses, goes, waits, open_stream-Outcome,
}
use outrelay_relay.Edge.System.{Outside, Process, System, opened, Plane, spliced}
use outrelay_relay.Edge.System.Acts.{open_as, come_back_as, demote_as}
use outrelay_relay.Edge.System.Allocs.{Allocs, counter_in, Unbroken, ids_of, counter_in}
use outrelay_relay.Edge.System.Allocs.Moves.{next-Allocs}
use outrelay_relay.Edge.System.Rows.{Rows, Names, stream_of, names_of, next-Rows}
use outrelay_relay.Edge.System.Safe.{Safe, Stepped, stay-Stepped}

module _ (s : System) (v : Safe s) where
  -- A refused stream, and one that goes to a peer, leave the tables.
  same-Stepped : (t : Relay) → Kept s.relay t → Stepped s (record s { relay = t })
  same-Stepped t (reg, pairs, plane, pool, policy, successors) = (
    record {
      names = subst (λ (x : Registry). Names s.conns x s.streams) (sym reg) v.names;
      allocs = subst (λ (f : Option Plane). Allocs f s.streams s.resumed) (sym plane) v.allocs;
      rows = subst (λ (x : Pairs). Rows x s.streams) (sym pairs) v.rows;
    },
    omega (arith, ap counter_in plane),
  )

  -- A handler that holds nothing starts under a new number.
  module _ (n : ℕ) (x : Process) (free : get n s.streams ≡ none) where
    start-Allocs : ids_of x ≡ [] → Unbroken x → Allocs s.relay.forward (put n x s.streams) s.resumed
    start-Allocs empty sane =
        next-Allocs s.relay.forward s.streams s.resumed v.allocs n x s.relay.forward
          (λ y e. ground arith) (λ id uri h. inl h) (λ id i. absurd (subst (Elem id) empty i))
          (omega arith) v.allocs.sound sane

    start-Rows :
        (now : Pairs)
        → ((id : ℕ) (p : StreamPair)
            → get id now ≡ some p
            → (get id s.relay.pairs ≡ some p) ⊎ ((stream_of x ≡ id) × (names_of x ≡ p)))
        → get 0 now ≡ none
        → Rows now (put n x s.streams)
    start-Rows now news zero_free =
        next-Rows s.relay.pairs s.streams v.rows n x now (λ y e. absurd (ground arith)) news
          zero_free

    start-Names :
        ((w : Waiting) → x ≡ Process.waits w → w.caller.uri ≢ [])
        → Names s.conns s.relay.reg (put n x s.streams)
    start-Names named = record {
      connected = v.names.connected;
      directory = v.names.directory;
      callers = λ m w e. elim (Bool-cases (n == m)) [
        | inl same ↦ named w (ground (arith, get-put n m x s.streams))
        | inr other ↦ v.names.callers m w (ground (arith, get-put n m x s.streams))
      ];
    }

abbrev CallerNamed : Process → Type 0
CallerNamed (Process.waits w) = w.caller.uri ≢ []
CallerNamed _ = Unit

module _ (id : ℕ) (p : StreamPair) (pairs : Pairs) where
  -- What `recordPair` and `replacePair` write.
  recorded :
      (j : ℕ) (q : StreamPair)
      → get j (record_pair id p pairs).1 ≡ some q
      → (get j pairs ≡ some q) ⊎ ((id ≡ j) × (p ≡ q))
  unfolding record_pair
  recorded j q h = elim (Bool-cases (id == j)) [
    | inl same ↦ ground (arith, get-put id j p pairs, eq_iff id j)
    | inr other ↦ inl (ground (arith, get-put id j p pairs))
  ]

  recorded_zero : get 0 pairs ≡ none → get 0 (record_pair id p pairs).1 ≡ none
  unfolding record_pair
  recorded_zero h = ground (arith, get-put id 0 p pairs, eq_iff id 0)

  replaced :
      (j : ℕ) (q : StreamPair)
      → get j (replace_pair id p pairs) ≡ some q
      → (get j pairs ≡ some q) ⊎ ((id ≡ j) × (p ≡ q))
  unfolding replace_pair
  replaced j q h = elim (Bool-cases (id == j)) [
    | inl same ↦ ground (arith, get-put id j p pairs, eq_iff id j)
    | inr other ↦ inl (ground (arith, get-put id j p pairs))
  ]

  replaced_zero : get 0 pairs ≡ none → get 0 (replace_pair id p pairs) ≡ none
  unfolding replace_pair
  replaced_zero h = ground (arith, get-put id 0 p pairs, eq_iff id 0)

module _ (s : System) (v : Safe s) (n : ℕ) (free : get n s.streams ≡ none) where
  opened-Stepped :
      (caller : Provider) (o : OpenStream) (t : Turn)
      → caller.uri ≢ []
      → Outcome caller o s.relay t
      → Stepped s (opened n t s)
  unfolding opened
  opened-Stepped caller o t named (refuses before code reason rel k e) =
      subst (λ (x : Turn). Stepped s (opened n x s)) (sym e) (same-Stepped s v rel k)
  opened-Stepped caller o t named (goes remote rel k e) =
      subst (λ (x : Turn). Stepped s (opened n x s)) (sym e) (same-Stepped s v rel k)
  opened-Stepped caller o t named
        (waits prov p2p mode sent rel (reg, pairs, plane, pool, policy, successors) ok e) =
      let w = waiting_for caller o prov p2p mode in
      let x = Process.waits w in
      let p = pair_of caller o s.relay prov in
      subst (λ (x : Turn). Stepped s (opened n x s)) (sym e)
        (
          record {
            names =
                subst (λ (r : Registry). Names s.conns r (put n x s.streams)) (sym reg)
                  (start-Names s v n x free
                    λ other same. subst (λ (y : Process). CallerNamed y) same named);
            allocs =
                subst (λ (f : Option Plane). Allocs f (put n x s.streams) s.resumed) (sym plane)
                  (start-Allocs s v n x free refl tt);
            rows =
                start-Rows s v n x free _ (recorded o.stream_id p s.relay.pairs)
                  (recorded_zero o.stream_id p s.relay.pairs v.rows.unnamed);
          },
          omega (arith, ap counter_in plane),
        )

  pub open-Stepped :
      (out : Outside) (world : World) (o : OpenStream) (found : Option Provider)
      → ((ac : Provider) → found ≡ some ac → ac.uri ≢ [])
      → Stepped s (open_as out n world o found none s)
  unfolding open_as
  open-Stepped out world o none named = stay-Stepped s v
  open-Stepped out world o (some ac) named =
      opened-Stepped ac o _ (named ac refl)
        (open_stream-Outcome ac o s.relay out.range out.parse_tenant world)

  back-Stepped :
      (id : ℕ) (self peer : Half)
      → Stepped s (
          let p : StreamPair = record { consumer_uri = self.uri; provider_uri = peer.uri } in
          spliced n id self peer (replace_pair id p s.relay.pairs) s)
  unfolding spliced
  back-Stepped id self peer =
      let x = Process.splices id self peer in
      let p : StreamPair = record { consumer_uri = self.uri; provider_uri = peer.uri } in
      (
        record {
          names = start-Names s v n x free λ w e. absurd (ground (arith, e));
          allocs = start-Allocs s v n x free refl tt;
          rows =
              start-Rows s v n x free _ (replaced id p s.relay.pairs)
                (replaced_zero id p s.relay.pairs v.rows.unnamed);
        },
        omega arith,
      )

  pub come_back-Stepped :
      (out : Outside) (id : ℕ) (self peer : Half)
      → Stepped s (come_back_as out n id self peer none s)
  unfolding come_back_as handle_resume_half splice_pair
  come_back-Stepped out id self peer = back-Stepped id self peer

  pub demote-Stepped :
      (out : Outside) (id : ℕ) (self peer : Half) (prior : Option MigratedStream)
      → Stepped s (demote_as out n id self peer prior none s)
  unfolding demote_as handle_migrate_to_relay splice_back splice_pair
  demote-Stepped out id self peer prior =
      let (w, grown) = back-Stepped id self peer in
      (record { names = w.names; allocs = w.allocs; rows = w.rows }, grown)

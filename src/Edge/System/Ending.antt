-- ===== src/Edge/System/Ending.antt =====
-- pkg/edge/edge.go: the end of a handler and the resumption of a forwarded stream, on the tables that all
-- handlers share.
use outrelay_relay.Common.{
  ℕ, ◌+◌, ◌<◌, ◌≤◌, Option, none, some, List, [], ◌∷◌, ◌≡◌, ◌≢◌, ◌⊎◌, inl, inr, arith, Bytes, get,
  del, refl, nat_eq, subst, sym, ap, Elem, eq_iff, get-del, ◌∙◌,
}
use outrelay_relay.Forward.State.{Plane}
use outrelay_relay.Forward.Index.{Inv}
use outrelay_relay.Forward.Invariant.{forget-Inv}
use outrelay_relay.Forward.Alloc
use outrelay_relay.Forward.Alloc.{u32_mod}
use outrelay_relay.Forward.Views.{owner_at}
use outrelay_relay.Forward.Grants.{PairGrant, get-forget}
use outrelay_relay.Forward.Owners.{Keeps, Keeps-refl, Keeps-trans, forget-Keeps}
use outrelay_relay.Registry.{Provider}
use outrelay_relay.Edge.ForwardResume.Grants.{resume_grants_pair, Driven}
use outrelay_relay.Edge.Halves.{end_splice}
use outrelay_relay.Edge.Streams.{Waiting}
use outrelay_relay.Edge.Streams.Answer.{Course, allocs_of, forget_all, forget_in, finish}
use outrelay_relay.Edge.System.{
  Outside, Process, System, ended, waits, runs, splices, driven, told_ids,
}
use outrelay_relay.Edge.System.Acts.{resume_as}
use outrelay_relay.Edge.System.Allocs.{Sound, counter_in, owner_in}
use outrelay_relay.Edge.System.Allocs.Moves.{end-Allocs, resume-Allocs}
use outrelay_relay.Edge.System.Rows.{Names, end-Rows}
use outrelay_relay.Edge.System.Safe.{Safe, Stepped, stay-Stepped}
use outrelay_relay.Edge.System.Answering.{news_of_pair}

-- The allocations are gone, and nothing else has changed hands.
record Given (ids : List ℕ) (p q : Plane) : Type 0 where
  agree : Inv q
  keeps : Keeps p q
  gone : (id : ℕ) (uri : Bytes) → Elem id ids → owner_at (get id q.by_alloc) ≡ some uri → ⊥

forget_all-Given : (ids : List ℕ) (p : Plane) → Inv p → Given ids p (forget_all ids p)
unfolding forget_all
forget_all-Given [] p v = record { agree = v; keeps = Keeps-refl p; gone = λ id uri i h. i }
forget_all-Given (id ∷ ids) p v =
    let rest = forget_all-Given ids (Alloc.forget id p) (forget-Inv p v id) in
    record {
      agree = rest.agree;
      keeps = Keeps-trans p (Alloc.forget id p) _ (forget-Keeps id p) rest.keeps;
      gone = λ i uri e h. elim e [
        | inl same ↦ first i uri same (rest.keeps.owners i uri h)
        | inr later ↦ rest.gone i uri later h
      ];
    }
  where
    first :
        (i : ℕ) (uri : Bytes)
        → i ≡ id
        → owner_at (get i (Alloc.forget id p).by_alloc) ≡ some uri
        → ⊥
    first i uri same h = ground (arith, get-forget id i p, eq_iff id i)

record GivenIn (ids : List ℕ) (f g : Option Plane) : Type 0 where
  agree : Sound g
  counter : counter_in g ≡ counter_in f
  owners :
      (id : ℕ) (uri : Bytes)
      → owner_in id g ≡ some uri
      → (owner_in id f ≡ some uri) × (Elem id ids → ⊥)

forget_in-Given : (ids : List ℕ) (f : Option Plane) → Sound f → GivenIn ids f (forget_in ids f)
forget_in-Given ids none v = record {
  agree = v;
  counter = refl;
  owners = λ id uri h. absurd (ground arith);
}
forget_in-Given ids (some p) v =
    let given = forget_all-Given ids p v in
    record {
      agree = given.agree;
      counter = given.keeps.counter;
      owners = λ id uri h. (given.keeps.owners id uri h, λ i. given.gone id uri i h);
    }

module _ (s : System) (v : Safe s) (n : ℕ) where
  left_Names : Names s.conns s.relay.reg (del n s.streams)
  left_Names = record {
    connected = v.names.connected;
    directory = v.names.directory;
    callers = λ m w e. v.names.callers m w (ground (arith, get-del n m s.streams));
  }

  finish-Stepped :
      (w : Waiting) (course : Course)
      → get n s.streams ≡ some (runs w course)
      → Stepped s (record s { relay = finish w course s.relay; streams = del n s.streams })
  unfolding finish
  finish-Stepped w course here =
      let given = forget_in-Given (allocs_of course) s.relay.forward v.allocs.sound in
      (
        record {
          names = left_Names;
          allocs =
              end-Allocs s.relay.forward s.streams s.resumed v.allocs n (runs w course)
                (forget_in (allocs_of course) s.relay.forward) here given.owners given.counter
                given.agree;
          rows = end-Rows s.relay.pairs s.streams v.rows n (runs w course) here;
        },
        omega (arith, given.counter),
      )

  pub end-Stepped : (found : Option Process) → get n s.streams ≡ found → Stepped s (ended n found s)
  unfolding ended end_splice
  end-Stepped none here = stay-Stepped s v
  end-Stepped (some (waits w)) here = stay-Stepped s v
  end-Stepped (some (runs w course)) here = finish-Stepped w course here
  end-Stepped (some (splices id self peer)) here = (
    record {
      names = left_Names;
      allocs =
          end-Allocs s.relay.forward s.streams s.resumed v.allocs n (splices id self peer)
            s.relay.forward here (λ i uri h. (h, λ none_held. none_held)) refl v.allocs.sound;
      rows = end-Rows s.relay.pairs s.streams v.rows n (splices id self peer) here;
    },
    omega arith,
  )

module _ (out : Outside) (s : System) (v : Safe s) (id now later : ℕ)
    (room : counter_in s.relay.forward + 2 < u32_mod) where
  driven-Stepped :
      (self peer : Provider) (p : Plane)
      → self.uri ≢ []
      → peer.uri ≢ []
      → s.relay.forward ≡ some p
      → Stepped s (resume_as out id now later (some self) (some peer) (some p) s)
  unfolding resume_as driven told_ids outrelay_relay.Edge.ForwardResume.Grants.resume_grant
  driven-Stepped self peer p one two on =
      let (c, d, q, g, e) =
        resume_grants_pair out.fwd_endpoint s.relay.successors id self peer now later p
          (subst Sound on v.allocs.sound) one two (omega (arith, room, ap counter_in on)) in
      subst (λ (r : Driven). Stepped s (driven r s)) (sym e)
        (
          record {
            names = v.names;
            allocs =
                resume-Allocs s.relay.forward s.streams s.resumed v.allocs (c ∷ d ∷ []) (some q)
                  (λ i uri h. was_or_new self peer p on c d q g i uri h)
                  (λ i h. new_ids self peer p on c d q g i h)
                  (omega (arith, ap counter_in on, g.advanced)) g.agree;
            rows = v.rows;
          },
          omega (arith, ap counter_in on, g.advanced),
        )
    where
      was_or_new :
          (self peer : Provider) (p : Plane)
          → s.relay.forward ≡ some p
          → (c d : ℕ) (q : Plane) → PairGrant p self.uri peer.uri c d q
          → (i : ℕ) (uri : Bytes) → owner_in i (some q) ≡ some uri
          → (owner_in i s.relay.forward ≡ some uri) ⊎ Elem i (c ∷ d ∷ [])
      was_or_new self peer p on c d q g i uri h =
          elim (news_of_pair p q self.uri peer.uri c d i uri g h) [
            | inl was ↦ inl (ap (owner_in i) on ∙ was)
            | inr (inl (here, u)) ↦ inr (inl here)
            | inr (inr (here, u)) ↦ inr (inr (inl here))
          ]

      new_ids :
          (self peer : Provider) (p : Plane)
          → s.relay.forward ≡ some p
          → (c d : ℕ) (q : Plane) → PairGrant p self.uri peer.uri c d q
          → (i : ℕ) → Elem i (c ∷ d ∷ [])
          → (counter_in s.relay.forward < i) × (i ≤ q.next_id)
      new_ids self peer p on c d q g i (inl e) = omega (arith, e, ap counter_in on, g.counted)
      new_ids self peer p on c d q g i (inr (inl e)) = omega (arith, e, ap counter_in on, g.counted)
      new_ids self peer p on c d q g i (inr (inr x)) = elim x [ ]

  pub resume-Stepped :
      (self peer : Option Provider) (f : Option Plane)
      → ((ac : Provider) → self ≡ some ac → ac.uri ≢ [])
      → ((ac : Provider) → peer ≡ some ac → ac.uri ≢ [])
      → s.relay.forward ≡ f
      → Stepped s (resume_as out id now later self peer f s)
  unfolding resume_as
  resume-Stepped none peer f one two on = stay-Stepped s v
  resume-Stepped (some self) none f one two on = stay-Stepped s v
  resume-Stepped (some self) (some peer) none one two on = stay-Stepped s v
  resume-Stepped (some self) (some peer) (some p) one two on =
      driven-Stepped self peer p (one self refl) (two peer refl) on

-- ===== src/Edge/Resume/Pairing.antt =====
-- pkg/edge/resume.go: which halves are paired.
use outrelay_relay.Common.{
  ℕ, none, some, true, false, arith, refl, ◌≡◌, inl, inr, get, Dict, Option-cases, nat_eq, get-put,
  Bool-cases, subst, eq_iff, ◌==◌, sym, put, del, get-del, if◌then◌else◌, if_cases,
}
use outrelay_relay.Edge.Resume.{
  ResumeMatcher, new_resume_matcher, HalfStream, waiting, resumed, submit, watch, expire, receive,
  update, is_half, read_matched, Step, submits, watches, expires, receives, Run, stay, then_step,
  fresh_half,
}
use outrelay_relay.Edge.Resume.Told.{
  id_of, Inv, read_matched-IsQuiet, id_of-update, get-update_cases, quiet-Inv,
}

abbrev matched_with : ℕ → HalfStream → HalfStream
matched_with g x = record x { splicer = false; message = some g }

-- The ids after a fresh half has come in.
id_of-put :
    (g j : ℕ) (x : HalfStream) (halves : Dict ℕ HalfStream)
    → id_of (get j (put g x halves)) ≡ (if g == j then some x.id else id_of (get j halves))
id_of-put g j x halves = ground (arith, get-put g j x halves)

park-Inv :
    (g id : ℕ) (x : HalfStream) (m : ResumeMatcher)
    → get g m.halves ≡ none
    → x.id ≡ id
    → x.message ≡ none
    → x.handler ≡ waiting
    → Inv m
    → Inv (record { pending = put id g m.pending; halves = put g x m.halves })
park-Inv g id x m fresh own empty waits v = record {
  parked = λ i j e. ground (
    arith,
    id_of-put g j x m.halves,
    get-put id i g m.pending,
    eq_iff g j,
    eq_iff id i,
    v.parked i j,
  );
  paired = λ j p y found t. ground (
    arith,
    id_of-put g p x m.halves,
    get-put g j x m.halves,
    eq_iff g j,
    eq_iff g p,
    v.paired j p y,
  );
}

pair-Inv :
    (g peer id : ℕ) (x : HalfStream) (m : ResumeMatcher)
    → get g m.halves ≡ none
    → get id m.pending ≡ some peer
    → x.id ≡ id
    → x.message ≡ some peer
    → x.handler ≡ waiting
    → Inv m
    → Inv (record {
      pending = del id m.pending;
      halves = put g x (update peer (matched_with g) m.halves);
    })
pair-Inv g peer id x m fresh found own message waits v =
    let halves = update peer (matched_with g) m.halves in
    let kept : (j : ℕ) → id_of (get j halves) ≡ id_of (get j m.halves) =
      λ j. id_of-update peer j (matched_with g) m.halves λ z. refl in
    record {
      parked = λ i j e.
          ground (
            arith,
            id_of-put g j x halves,
            kept j,
            get-del id i m.pending,
            eq_iff g j,
            v.parked i j,
          );
      paired = λ j p y at t. elim (Bool-cases (g == j)) [
        | inl same ↦ ground (
          arith,
          get-put g j x halves,
          id_of-put g p x halves,
          kept p,
          v.parked id peer found,
          eq_iff g p,
        )
        | inr other ↦
            let at_old : get j halves ≡ some y = ground (arith, get-put g j x halves) in
            elim (get-update_cases peer j (matched_with g) m.halves y at_old) [
              | inl old ↦
                  ground (arith, id_of-put g p x halves, kept p, eq_iff g p, v.paired j p y old t)
              | inr (z, old, e, here) ↦ ground (
                arith,
                id_of-put g p x halves,
                kept p,
                eq_iff g p,
                v.paired j p z old,
                v.parked id peer found,
              )
            ]
      ];
    }

submit-parks :
    (g id : ℕ) (m : ResumeMatcher)
    → get id m.pending ≡ none
    → submit g id m ≡ record {
      pending = put id g m.pending;
      halves = put g (record (fresh_half id) { watched = true }) m.halves;
    }
unfolding submit
submit-parks g id m free = ground arith

submit-pairs :
    (g peer id : ℕ) (m : ResumeMatcher)
    → get id m.pending ≡ some peer
    → submit g id m ≡ record {
      pending = del id m.pending;
      halves =
          put g
            (record (fresh_half id) { splicer = true; message = some peer })
            (update peer (matched_with g) m.halves);
    }
unfolding submit
submit-pairs g peer id m found = ground arith

submit-Inv : (g id : ℕ) (m : ResumeMatcher) → get g m.halves ≡ none → Inv m → Inv (submit g id m)
submit-Inv g id m fresh v = elim (Option-cases (get id m.pending)) [
  | inl free ↦
      subst Inv (sym (submit-parks g id m free))
        (park-Inv g id (record (fresh_half id) { watched = true }) m fresh refl refl refl v)
  | inr (peer, found) ↦ subst Inv (sym (submit-pairs g peer id m found)) (
      pair-Inv g peer id (record (fresh_half id) { splicer = true; message = some peer }) m fresh
        found refl refl refl v)
]

expire-Inv : (h id : ℕ) (m : ResumeMatcher) → Inv m → Inv (expire h id m)
unfolding expire
expire-Inv h id m v =
    if_cases Inv (is_half h (get id m.pending)) _ _
      (λ own.
        quiet-Inv h (λ x. record x { closed = true; watched = false }) m (del id m.pending)
          (record { same_id = λ x. refl; told = λ x p t. t })
          (λ i j e. ground (arith, get-del id i m.pending)) v)
      λ late.
        quiet-Inv h (λ x. record x { watched = false }) m m.pending
          (record { same_id = λ x. refl; told = λ x p t. t }) (λ i j e. e) v

Step-Inv : (m n : ResumeMatcher) → Inv m → Step m n → Inv n
unfolding watch receive
Step-Inv _ _ v (submits g id m fresh) = submit-Inv g id m fresh v
Step-Inv _ _ v (watches h x m at watched ready) =
    quiet-Inv h (λ x. record x { message = none; watched = false }) m m.pending
      (record { same_id = λ x. refl; told = λ x p t. ground arith }) (λ i j e. e) v
Step-Inv _ _ v (expires h x m at watched) = expire-Inv h x.id m v
Step-Inv _ _ v (receives h x m at waits ready) =
    quiet-Inv h read_matched m m.pending read_matched-IsQuiet (λ i j e. e) v

Run-Inv : (m n : ResumeMatcher) → Inv m → Run m n → Inv n
Run-Inv _ _ v (stay m) = v
Run-Inv _ _ v (then_step a b c run step) = Step-Inv b c (Run-Inv a b v run) step

-- Whatever goroutines of the resume matcher run and in whatever order, a handler that is given a
-- peer is given one that was submitted for the same stream.
pub resumed_same_stream :
    (n : ResumeMatcher) (h p : ℕ) (x : HalfStream)
    → Run new_resume_matcher n
    → get h n.halves ≡ some x
    → x.handler ≡ resumed p
    → (y : HalfStream) × (get p n.halves ≡ some y) × (y.id ≡ x.id)
unfolding new_resume_matcher get
resumed_same_stream n h p x run found told =
    let v =
      Run-Inv new_resume_matcher n
        (record { parked = λ i j e. ground (arith, e); paired = λ j q y e t. ground (arith, e) })
        run in
    let same = v.paired h p x found (inr told) in
    elim (Option-cases (get p n.halves)) [
      | inl missing ↦ absurd (ground arith)
      | inr (y, at) ↦ (y, at, ground arith)
    ]

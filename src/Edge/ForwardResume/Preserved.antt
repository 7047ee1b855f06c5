-- ===== src/Edge/ForwardResume/Preserved.antt =====
-- pkg/edge/forward_resume.go: each step of a goroutine keeps the table and the halves in agreement.
use outrelay_relay.Edge.ForwardResume.{
  HalfForwardResume, ForwardMatcher, fresh_half, Option, Bool, ℕ, ◌≡◌,
}
use outrelay_relay.Common.{
  Option, Bool, ℕ, ◌≡◌, true, some, false, get, none, ◌==◌, ◌≢◌, del, put, nat_eq, arith, get-put,
  Bool-cases, inl, inr, eq_iff, ap, sym, ◌∙◌, get-del, eq_refl, Option-cases,
}
use outrelay_relay.Edge.ForwardResume.Agreement.{
  Inv, IsQuiet, peer_in, peer_at, parked_at, told_at, id_at, stuck_at, orderly_at,
}

-- The first half of a pair comes in.
pub park-Inv :
    (m : ForwardMatcher) (v : Inv m) (g id : ℕ)
    → get g m.halves ≡ none
    → get id m.pending ≡ none
    → Inv (record {
      pending = put id g m.pending;
      halves = put g (record (fresh_half id) { watched = true }) m.halves;
    })
park-Inv m v g id fresh empty =
    let z = record (fresh_half id) { watched = true } in
    record {
      parked = λ i j e. ground (
        arith,
        get-put id i g m.pending,
        get-put g j z m.halves,
        v.parked i j,
        eq_iff id i,
        eq_refl id,
      );
      told = λ j p i e t.
          ground (arith, get-put g j z m.halves, get-put g p z m.halves, v.told j p i, eq_iff g p);
      alone = λ j k p a b.
          ground (arith, get-put g j z m.halves, get-put g k z m.halves, v.alone j k p);
      settled = λ j i e w. ground (
        arith,
        get-put g j z m.halves,
        get-put id i g m.pending,
        v.settled j i,
        eq_iff g j,
        eq_iff id i,
      );
      orderly = λ j. ground (arith, get-put g j z m.halves, v.orderly j);
    }

module _ (m : ForwardMatcher) (v : Inv m) (h : ℕ) (x y : HalfForwardResume)
    (at : get h m.halves ≡ some x) where
  -- A view of the half that stands under a number, after the write.
  view_put :
      {A : Type 0} (view : Option HalfForwardResume → A)
      → view (some y) ≡ view (some x)
      → (j : ℕ) → view (get j (put h y m.halves)) ≡ view (get j m.halves)
  view_put view same j = elim (Bool-cases (h == j)) [
    | inl here ↦ ground (arith, get-put h j y m.halves, at, eq_iff h j)
    | inr other ↦ ground (arith, get-put h j y m.halves)
  ]

  flag_put :
      (view : Option HalfForwardResume → Bool)
      → (view (some x) ≡ true → view (some y) ≡ true)
      → (j : ℕ) → view (get j m.halves) ≡ true
      → view (get j (put h y m.halves)) ≡ true
  flag_put view still j t = elim (Bool-cases (h == j)) [
    | inl here ↦ ground (arith, get-put h j y m.halves, at, eq_iff h j)
    | inr other ↦ ground (arith, get-put h j y m.halves)
  ]

  flag_put_back :
      (view : Option HalfForwardResume → Bool)
      → (view (some y) ≡ true → view (some x) ≡ true)
      → (j : ℕ) → view (get j (put h y m.halves)) ≡ true
      → view (get j m.halves) ≡ true
  flag_put_back view still j t = elim (Bool-cases (h == j)) [
    | inl here ↦ ground (arith, get-put h j y m.halves, at, eq_iff h j)
    | inr other ↦ ground (arith, get-put h j y m.halves)
  ]

  pub quiet-Inv :
      ((i : ℕ) → get i m.pending ≢ some h)
      → IsQuiet x y
      → Inv (record m { halves = put h y m.halves })
  quiet-Inv free q =
      let peers = view_put peer_at q.same_peer in
      let ids = view_put id_at (ap some q.same_id) in
      record {
        parked = λ i j e. ground (arith, get-put h j y m.halves, v.parked i j, free i);
        told = λ j p i e t.
            flag_put (told_at i) (q.still_told i) p
              (v.told j p i (sym (peers j) ∙ e) (sym (ids j) ∙ t));
        alone = λ j g p a b. v.alone j g p (sym (peers j) ∙ a) (sym (peers g) ∙ b);
        settled = λ j i e w.
            v.settled j i (sym (ids j) ∙ e) (flag_put_back stuck_at q.still_readable j w);
        orderly = λ j. flag_put orderly_at q.still_orderly j (v.orderly j);
      }

  -- The window of a parked half ends.
  pub time_out-Inv :
      get x.id m.pending ≡ some h
      → y ≡ record x { timed_out = true; closed = true; watched = false }
      → Inv (record { pending = del x.id m.pending; halves = put h y m.halves })
  time_out-Inv own made =
      let here : parked_at x.id (some x) ≡ true = ground (arith, at, v.parked x.id h own) in
      let peers = view_put peer_at (ap peer_in made) in
      let ids = view_put id_at (ap (λ (z : HalfForwardResume). some z.id) made) in
      record {
        parked = λ i j e.
            ground (arith, get-del x.id i m.pending, get-put h j y m.halves, v.parked i j, at);
        told = λ j p i e t.
            flag_put (told_at i) (λ was. absurd (ground (arith, here, was))) p
              (v.told j p i (sym (peers j) ∙ e) (sym (ids j) ∙ t));
        alone = λ j g p a b. v.alone j g p (sym (peers j) ∙ a) (sym (peers g) ∙ b);
        settled = λ j i e w. elim (Bool-cases (h == j)) [
          | inl same ↦ absurd (ground (arith, get-put h j y m.halves, w, made))
          | inr other ↦ ground (
            arith,
            get-del x.id i m.pending,
            get-put h j y m.halves,
            v.settled j i,
            own,
            eq_iff x.id i,
          )
        ];
        orderly = λ j. flag_put orderly_at (λ t. ground (arith, made, t)) j (v.orderly j);
      }

  -- Nobody has been given a parked half.
  not_met :
      (id : ℕ)
      → parked_at id (some x) ≡ true
      → (j p : ℕ) → peer_at (get j m.halves) ≡ some p
      → p ≢ h
  not_met id here j p e same = elim (Option-cases (get j m.halves)) [
    | inl missing ↦ ground (arith, e, missing)
    | inr (z, found) ↦ ground (arith, same, here, at, e, found, v.told j p z.id)
  ]

  -- The second half of a pair comes in.
  pub pair-Inv :
      (g id : ℕ)
      → get g m.halves ≡ none
      → get id m.pending ≡ some h
      → y ≡ record x { closed = true }
      → Inv (record {
        pending = del id m.pending;
        halves = put g (record (fresh_half id) { message = some h }) (put h y m.halves);
      })
  pair-Inv g id fresh own made =
      let here : parked_at id (some x) ≡ true = ground (arith, at, v.parked id h own) in
      let peers = view_put peer_at (ap peer_in made) in
      let ids = view_put id_at (ap (λ (z : HalfForwardResume). some z.id) made) in
      let z = record (fresh_half id) { message = some h } in
      let met = put h y m.halves in
      let apart : get g met ≡ none = ground (arith, get-put h g y m.halves, at, eq_iff h g) in
      let old : (j : ℕ) → (g == j) ≡ false → get j (put g z met) ≡ get j met =
        λ j other. ground (arith, get-put g j z met, other) in
      let first : told_at id (get h (put g z met)) ≡ true =
        ground
          (arith, get-put g h z met, get-put h h y m.halves, eq_iff g h, at, fresh, here, made) in
      record {
        parked = λ i j e. ground (
          arith,
          get-del id i m.pending,
          get-put g j z met,
          get-put h j y m.halves,
          v.parked i j,
          at,
          here,
          eq_iff h j,
          eq_iff id i,
        );
        told = λ j p i e t. elim (Bool-cases (g == j)) [
          | inl same ↦ ground (arith, get-put g j z met, first)
          | inr other ↦
              let gave = sym (peers j) ∙ (sym (ap peer_at (old j other)) ∙ e) in
              let had = v.told j p i gave (sym (ids j) ∙ (sym (ap id_at (old j other)) ∙ t)) in
              ground (
                arith,
                had,
                get-put g p z met,
                get-put h p y m.halves,
                fresh,
                not_met id here j p gave,
                eq_iff g p,
                eq_iff h p,
              )
        ];
        alone = λ j k p a b. ground (
          arith,
          get-put g j z met,
          get-put g k z met,
          peers j,
          peers k,
          v.alone j k p,
          not_met id here j p,
          not_met id here k p,
          eq_iff g j,
          eq_iff g k,
        );
        settled = λ j i e w. ground (
          arith,
          get-put g j z met,
          get-put h j y m.halves,
          v.settled j i,
          own,
          made,
          get-del id i m.pending,
          eq_iff id i,
          eq_iff h j,
        );
        orderly = λ j. ground (
          arith,
          get-put g j z met,
          flag_put orderly_at (λ t. ground (arith, made, t)) j (v.orderly j),
        );
      }

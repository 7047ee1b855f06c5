-- ===== src/Edge/Resume/Stolen.antt =====
-- pkg/edge/resume.go: what becomes of a parked half when its peer arrives.
use outrelay_relay.Common.{
  ℕ, none, some, true, false, arith, refl, ◌≡◌, get, Dict, ◌≢◌, ◌==◌, Option-cases, nat_eq, inl,
  inr, get-put, eq_iff, ◌∙◌, Bool-cases, get-del, eq_refl, del,
}
use outrelay_relay.Edge.Resume.{
  ResumeMatcher, HalfStream, waiting, submit, watch, expire, receive, update, is_half, read_matched,
  readable, Step, submits, watches, expires, receives, Run, stay, then_step, fresh_half,
}

-- The handler waits, nothing is in the channel, and nobody is left who could put something there.
pub record IsLost (h : ℕ) (m : ResumeMatcher) : Type 0 where
  pub half : HalfStream
  pub found : get h m.halves ≡ some half
  pub waits : half.handler ≡ waiting
  pub unwatched : half.watched ≡ false
  pub silent : readable half ≡ false
  pub unparked : (id : ℕ) → get id m.pending ≢ some h

get-update :
    (h j : ℕ) (f : HalfStream → HalfStream) (halves : Dict ℕ HalfStream)
    → (h == j) ≡ false
    → get j (update h f halves) ≡ get j halves
unfolding update
get-update h j f halves other = elim (Option-cases (get h halves)) [
  | inl missing ↦ ground arith
  | inr (x, found) ↦ ground (arith, get-put h j (f x) halves)
]

differs :
    (g h : ℕ) (x y : HalfStream) (m : ResumeMatcher)
    → get g m.halves ≡ some x
    → get h m.halves ≡ some y
    → readable x ≡ true
    → readable y ≡ false
    → (g == h) ≡ false
differs g h x y m at found ready silent = ground (arith, eq_iff g h)

unwatched_differs :
    (g h : ℕ) (x y : HalfStream) (m : ResumeMatcher)
    → get g m.halves ≡ some x
    → get h m.halves ≡ some y
    → x.watched ≡ true
    → y.watched ≡ false
    → (g == h) ≡ false
unwatched_differs g h x y m at found on off = ground (arith, eq_iff g h)

-- A step that leaves the half as it is and parks no one in its place.
keeps :
    (h : ℕ) (m n : ResumeMatcher) (l : IsLost h m)
    → get h n.halves ≡ get h m.halves
    → ((id : ℕ) → get id n.pending ≡ some h → get id m.pending ≡ some h)
    → IsLost h n
keeps h m n l same parked = record {
  half = l.half;
  found = same ∙ l.found;
  waits = l.waits;
  unwatched = l.unwatched;
  silent = l.silent;
  unparked = λ id e. l.unparked id (parked id e);
}

submit-IsLost :
    (h g id : ℕ) (m : ResumeMatcher) → get g m.halves ≡ none → IsLost h m → IsLost h (submit g id m)
unfolding submit
submit-IsLost h g id m fresh l =
    let found = l.found in
    let other : (g == h) ≡ false = ground (arith, eq_iff g h) in
    elim (Option-cases (get id m.pending)) [
      | inl free ↦
          keeps h m (submit g id m) l
            (ground (arith, get-put g h (record (fresh_half id) { watched = true }) m.halves))
            λ j e. ground (arith, get-put id j g m.pending, eq_iff g h)
      | inr (peer, parked) ↦
          let apart : (peer == h) ≡ false = ground (arith, eq_iff peer h, l.unparked id) in
          let told = update peer (λ x. record x { splicer = false; message = some g }) m.halves in
          keeps h m (submit g id m) l
            (ground (
              arith,
              get-put g h (record (fresh_half id) { splicer = true; message = some peer }) told,
              get-update peer h (λ x. record x { splicer = false; message = some g }) m.halves
                  apart,
            ))
            λ j e. ground (arith, get-del id j m.pending)
    ]

expire-IsLost :
    (h g id : ℕ) (m : ResumeMatcher) → (g == h) ≡ false → IsLost h m → IsLost h (expire g id m)
unfolding expire
expire-IsLost h g id m other l = elim (Bool-cases (is_half g (get id m.pending))) [
  | inl own ↦
      keeps h m (expire g id m) l
        (ground
          (arith, get-update g h (λ x. record x { closed = true; watched = false }) m.halves other))
        λ j e. ground (arith, get-del id j m.pending)
  | inr late ↦
      keeps h m (expire g id m) l
        (ground (arith, get-update g h (λ x. record x { watched = false }) m.halves other))
        λ j e. ground arith
]

Step-IsLost : (h : ℕ) (m n : ResumeMatcher) → IsLost h m → Step m n → IsLost h n
unfolding watch receive
Step-IsLost h _ _ l (submits g id m fresh) = submit-IsLost h g id m fresh l
Step-IsLost h _ _ l (watches g x m at watched ready) =
    let found = l.found in
    let silent = l.silent in
    keeps h m (watch g m) l
      (get-update g h (λ x. record x { message = none; watched = false }) m.halves
        (differs g h x l.half m at found ready silent))
      λ j e. e
Step-IsLost h _ _ l (expires g x m at watched) =
    expire-IsLost h g x.id m (unwatched_differs g h x l.half m at l.found watched l.unwatched) l
Step-IsLost h _ _ l (receives g x m at waits ready) =
    keeps h m (receive g m) l
      (get-update g h read_matched m.halves (differs g h x l.half m at l.found ready l.silent))
      λ j e. e

Run-IsLost : (h : ℕ) (m n : ResumeMatcher) → IsLost h m → Run m n → IsLost h n
Run-IsLost h _ _ l (stay m) = l
Run-IsLost h _ _ l (then_step a b c run step) = Step-IsLost h b c (Run-IsLost h a b l run) step

-- A half that is parked: its handler waits, its channel is open and empty, and it stands in the table
-- under its own id and under no other.
pub record IsParked (h : ℕ) (half : HalfStream) (m : ResumeMatcher) : Type 0 where
  pub found : get h m.halves ≡ some half
  pub waits : half.handler ≡ waiting
  pub watched : half.watched ≡ true
  pub open_empty : readable half ≡ false
  pub parked : get half.id m.pending ≡ some h
  pub once : (id : ℕ) → get id m.pending ≡ some h → id ≡ half.id

abbrev matched_with : ℕ → HalfStream → HalfStream
matched_with g x = record x { splicer = false; message = some g }

abbrev emptied : HalfStream → HalfStream
emptied x = record x { message = none; watched = false }

get-update-same :
    (h : ℕ) (f : HalfStream → HalfStream) (x : HalfStream) (halves : Dict ℕ HalfStream)
    → get h halves ≡ some x
    → get h (update h f halves) ≡ some (f x)
unfolding update
get-update-same h f x halves found = ground (arith, get-put h h (f x) halves, eq_refl h)

get-submit :
    (h g : ℕ) (half : HalfStream) (m : ResumeMatcher)
    → IsParked h half m
    → get g m.halves ≡ none
    → (get h (submit g half.id m).halves ≡ some (matched_with g half))
      × ((submit g half.id m).pending ≡ del half.id m.pending)
unfolding submit
get-submit h g half m p fresh =
    let found = p.found in
    let parked = p.parked in
    let other : (g == h) ≡ false = ground (arith, eq_iff g h) in
    (
      ground (
        arith,
        get-put g h (record (fresh_half half.id) { splicer = true; message = some h })
            (update h (matched_with g) m.halves),
        get-update-same h (matched_with g) half m.halves found,
      ),
      ground arith,
    )

stolen-IsLost :
    (h g : ℕ) (half : HalfStream) (m : ResumeMatcher)
    → IsParked h half m
    → get g m.halves ≡ none
    → IsLost h (watch h (submit g half.id m))
unfolding watch readable
stolen-IsLost h g half m p fresh =
    let (found, cleared) = get-submit h g half m p fresh in
    record {
      half = emptied (matched_with g half);
      found = get-update-same h emptied (matched_with g half) (submit g half.id m).halves found;
      waits = p.waits;
      unwatched = refl;
      silent = let silent = p.open_empty in ground arith;
      unparked = λ id e.
          let once = p.once id in ground (arith, get-del half.id id m.pending, eq_iff half.id id);
    }

stolen-Run :
    (h g : ℕ) (half : HalfStream) (m : ResumeMatcher)
    → IsParked h half m
    → get g m.halves ≡ none
    → Run m (watch h (submit g half.id m))
unfolding readable
stolen-Run h g half m p fresh =
    let (found, cleared) = get-submit h g half m p fresh in
    let matched = submit g half.id m in
    then_step m matched (watch h matched)
      (then_step m m matched (stay m) (submits g half.id m fresh))
      (watches h (matched_with g half) matched found p.watched refl)

-- The peer of a parked half may arrive and the goroutine that expires the parked half may take the
-- one message of the channel before its handler does; the handler then waits for ever: whatever
-- steps follow, it is still waiting, and its channel stays empty and open.
pub match_is_stolen :
    (h g : ℕ) (half : HalfStream) (m n : ResumeMatcher)
    → IsParked h half m
    → get g m.halves ≡ none
    → Run (watch h (submit g half.id m)) n
    → Run m (watch h (submit g half.id m))
      × (x : HalfStream) × (get h n.halves ≡ some x)
      × (x.handler ≡ waiting)
      × (readable x ≡ false)
match_is_stolen h g half m n p fresh run =
    let l = Run-IsLost h (watch h (submit g half.id m)) n (stolen-IsLost h g half m p fresh) run in
    (stolen-Run h g half m p fresh, l.half, l.found, l.waits, l.silent)

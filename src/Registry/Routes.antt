-- ===== src/Registry/Routes.antt =====
-- pkg/registry: what the successor list holds, and what its subscribers hold.
use outrelay_relay.Common.{
  ℕ, none, some, [], ◌∷◌, refl, arith, inl, inr, Bytes, List, ◌≢◌, Elem, ◌≡◌, if◌then◌else◌, ◌++◌,
  Option, ap, sym, true, ◌==◌, ◌∙◌, ◌⊎◌, eq_iff, subst, nat_eq, bytes_eq, ◌↔◌,
}
use outrelay_relay.Registry.Fleet.{
  RelayInstance, split_fleet, endpoints, successors, IsSort, Heartbeat, beat, run, call_all,
  lists_equal,
}

-- A relay that can take over: another one, with an endpoint.
abbrev pub Eligible : Bytes → RelayInstance → Type 0
Eligible self_id r = (r.id ≢ self_id) × (r.endpoint ≢ [])

endpoints-intro :
    (rs : List RelayInstance) (r : RelayInstance) → Elem r rs → Elem r.endpoint (endpoints rs)
unfolding endpoints
endpoints-intro [] r h = h
endpoints-intro (s ∷ rs) r (inl e) = inl (ap (λ x. x.endpoint) e)
endpoints-intro (s ∷ rs) r (inr m) = inr (endpoints-intro rs r m)

endpoints-elim :
    (rs : List RelayInstance) (e : Bytes)
    → Elem e (endpoints rs)
    → (r : RelayInstance) × Elem r rs × (r.endpoint ≡ e)
unfolding endpoints
endpoints-elim [] e h = absurd h
endpoints-elim (s ∷ rs) e (inl q) = (s, inl refl, sym q)
endpoints-elim (s ∷ rs) e (inr m) = let (r, found, q) = endpoints-elim rs e m in (r, inr found, q)

lists_equal→eq : (s t : List Bytes) → lists_equal s t ≡ true → s ≡ t
unfolding lists_equal
lists_equal→eq [] [] h = refl
lists_equal→eq [] (b ∷ t) h = ground arith
lists_equal→eq (a ∷ s) [] h = ground arith
lists_equal→eq (a ∷ s) (b ∷ t) h = ground (arith, lists_equal→eq s t, eq_iff a b)

-- What a subscriber holds after the calls.
unfoldable pub told : ℕ → List (ℕ × List Bytes) → List Bytes → List Bytes
told s [] held = held
told s ((t, next) ∷ calls) held = told s calls (if t == s then next else held)

told-append :
    (s : ℕ) (calls more : List (ℕ × List Bytes)) (held : List Bytes)
    → told s (calls ++ more) held ≡ told s more (told s calls held)
unfolding told
told-append s [] more held = refl
told-append s ((t, next) ∷ calls) more held =
    told-append s calls more (if t == s then next else held)

told-call_all-same :
    (s : ℕ) (subs : List ℕ) (next : List Bytes) → told s (call_all subs next) next ≡ next
unfolding told call_all
told-call_all-same s [] next = refl
told-call_all-same s (t ∷ subs) next = ground (arith, told-call_all-same s subs next)

told-call_all :
    (s : ℕ) (subs : List ℕ) (next held : List Bytes)
    → Elem s subs
    → told s (call_all subs next) held ≡ next
unfolding told call_all
told-call_all s [] next held h = absurd h
told-call_all s (t ∷ subs) next held (inl e) = ground (arith, told-call_all-same s subs next)
told-call_all s (t ∷ subs) next held (inr m) =
    told-call_all s subs next (if t == s then next else held) m

module _ (sort : List RelayInstance → List RelayInstance) where
  told-beat :
      (s : ℕ) (answer : Option (List RelayInstance)) (h : Heartbeat)
      → Elem s h.subs
      → (told s (beat sort answer h).1 h.last ≡ (beat sort answer h).0.last)
        × ((beat sort answer h).0.subs ≡ h.subs)
  unfolding beat told
  told-beat s none h m = (refl, refl)
  told-beat s (some relays) h m =
      let next = successors sort h.id h.region relays in
      ground (arith, told-call_all s h.subs next h.last m)

  -- Whatever the controller answers to the beats, failures included, a subscriber that held the
  -- heartbeat's list before them holds its list after them.
  pub told-run :
      (s : ℕ) (answers : List (Option (List RelayInstance))) (h : Heartbeat)
      → Elem s h.subs
      → told s (run sort answers h).1 h.last ≡ (run sort answers h).0.last
  unfolding run told
  told-run s [] h m = refl
  told-run s (answer ∷ answers) h m =
      let r = beat sort answer h in
      let (held, same) = told-beat s answer h m in
      told-append s r.1 (run sort answers r.0).1 h.last
      ∙ ap (told s (run sort answers r.0).1) held
      ∙ told-run s answers r.0 (subst (Elem s) (sym same) m)

  pub split_fleet_sound :
      (self_id region : Bytes) (fleet : List RelayInstance) (r : RelayInstance)
      → ((Elem r (split_fleet self_id region fleet).0
            → Elem r fleet × Eligible self_id r × (r.region ≡ region))
          × (Elem r (split_fleet self_id region fleet).1
              → Elem r fleet × Eligible self_id r × (r.region ≢ region)))
        × (Elem r fleet
            → Eligible self_id r
            → Elem r (split_fleet self_id region fleet).0
              ⊎ Elem r (split_fleet self_id region fleet).1)
  unfolding split_fleet
  split_fleet_sound self_id region [] r = ((λ h. absurd h, λ h. absurd h), λ h e. absurd h)
  split_fleet_sound self_id region (s ∷ fleet) r = grind (
    arith,
    split_fleet_sound self_id region fleet r,
    eq_iff s.id self_id,
    eq_iff s.endpoint [],
    eq_iff s.region region,
  )

  -- The endpoints of the relays that can take over and that a test accepts.
  abbrev pub Endpoint : (RelayInstance → Type 0) → Bytes → List RelayInstance → Bytes → Type 0
  Endpoint P self_id fleet e =
      (r : RelayInstance) × Elem r fleet × Eligible self_id r × P r × (r.endpoint ≡ e)

  -- With a sort that keeps the elements, the successor list is the endpoints of the relay's region
  -- followed by the other ones; either part has the endpoints of exactly the other relays that
  -- have one and are in the region, or are not.
  pub successors_lem :
      (self_id region : Bytes) (fleet : List RelayInstance)
      → IsSort sort
      → (near far : List Bytes) × (successors sort self_id region fleet ≡ near ++ far)
        × ((e : Bytes)
            → (Elem e near ↔ Endpoint (λ r. r.region ≡ region) self_id fleet e)
              × (Elem e far ↔ Endpoint (λ r. r.region ≢ region) self_id fleet e))
  unfolding successors
  successors_lem self_id region fleet sorts =
      let (same, other) = split_fleet self_id region fleet in
      (endpoints (sort same), endpoints (sort other), refl, λ e. (near e, far e))
    where
      near :
          (e : Bytes)
          → Elem e (endpoints (sort (split_fleet self_id region fleet).0))
            ↔ Endpoint (λ r. r.region ≡ region) self_id fleet e
      near e = (
        λ h.
            let (r, m, q) = endpoints-elim (sort (split_fleet self_id region fleet).0) e h in
            let (found, fit, here) =
              (split_fleet_sound self_id region fleet r).0.0
                ((sorts (split_fleet self_id region fleet).0 r).0 m) in
            (r, found, fit, here, q),
        λ (r, found, fit, here, q). elim ((split_fleet_sound self_id region fleet r).1 found fit) [
          | inl m ↦
              subst (λ x. Elem x (endpoints (sort (split_fleet self_id region fleet).0))) q
                (endpoints-intro (sort (split_fleet self_id region fleet).0) r
                  ((sorts (split_fleet self_id region fleet).0 r).1 m))
          | inr m ↦ absurd (((split_fleet_sound self_id region fleet r).0.1 m).2 here)
        ],
      )

      far :
          (e : Bytes)
          → Elem e (endpoints (sort (split_fleet self_id region fleet).1))
            ↔ Endpoint (λ r. r.region ≢ region) self_id fleet e
      far e = (
        λ h.
            let (r, m, q) = endpoints-elim (sort (split_fleet self_id region fleet).1) e h in
            let (found, fit, here) =
              (split_fleet_sound self_id region fleet r).0.1
                ((sorts (split_fleet self_id region fleet).1 r).0 m) in
            (r, found, fit, here, q),
        λ (r, found, fit, here, q). elim ((split_fleet_sound self_id region fleet r).1 found fit) [
          | inl m ↦ absurd (here ((split_fleet_sound self_id region fleet r).0.0 m).2)
          | inr m ↦
              subst (λ x. Elem x (endpoints (sort (split_fleet self_id region fleet).1))) q
                (endpoints-intro (sort (split_fleet self_id region fleet).1) r
                  ((sorts (split_fleet self_id region fleet).1 r).1 m))
        ],
      )

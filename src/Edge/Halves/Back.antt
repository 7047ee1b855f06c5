-- ===== src/Edge/Halves/Back.antt =====
-- pkg/edge/edge.go: what the two agents of a resumed stream learn of one another.
use outrelay_relay.Registry.{Registry, lookup_agent}
use outrelay_relay.Edge.Pairs.{Pairs, StreamPair, replace_pair, forget_pair, route}
use outrelay_relay.Edge.Pairs.Routing.{route_lem}
use outrelay_relay.Edge.Migrated.{MigratedStream, MigratedLru, lookup_migrated, discard}
use outrelay_relay.Edge.Halves.{
  Half, StreamResume, spliced_with, splice_pair, end_splice, handle_resume_half, splice_back,
  discard_prior, handle_migrate_to_relay, ℕ,
}
use outrelay_relay.Common.{
  ℕ, ◌≢◌, Bool, [], some, ◌≡◌, List, Option, arith, true, none, get-put, get, eq_refl,
  if◌then◌else◌, ◌==◌, nat_eq, get-del, put, refl,
}

module _ (id : ℕ) (half matched : Half) (pairs : Pairs) (reg : Registry) (own : half.uri ≢ [])
    (other : matched.uri ≢ []) (named : id ≢ 0) where
  abbrev Routed : Pairs → Type 0
  Routed ps =
      (route id half.uri ps reg ≡ lookup_agent matched.uri reg)
      × (route id matched.uri ps reg ≡ lookup_agent half.uri reg)

  splice_pair-Routed :
      (writes : List (ℕ × StreamResume)) → Routed (splice_pair id half matched writes pairs).pairs
  unfolding splice_pair replace_pair
  splice_pair-Routed writes =
      let p : StreamPair = record { consumer_uri = half.uri; provider_uri = matched.uri } in
      let routes =
        route_lem id p (replace_pair id p pairs) reg
          (ground (arith, named, get-put id id p pairs, eq_refl id)) own other in
      (routes.0, routes.1)

  -- While a stream that came back is spliced, on either path, the frames of each agent reach the other;
  -- after it the id has no pair, and no other id has changed. The id is not 0 and the names not empty.
  pub resumed_halves_meet :
      (prior : Option MigratedStream) (table : MigratedLru)
      → let r = handle_resume_half id half (some matched) true pairs in
        let b = (handle_migrate_to_relay id half prior (some matched) true pairs table).0 in
        (r.ending ≡ spliced_with matched.stream)
        × (b.ending ≡ spliced_with matched.stream)
        × (route id half.uri r.pairs reg ≡ lookup_agent matched.uri reg)
        × (route id matched.uri r.pairs reg ≡ lookup_agent half.uri reg)
        × (route id half.uri b.pairs reg ≡ lookup_agent matched.uri reg)
        × (route id matched.uri b.pairs reg ≡ lookup_agent half.uri reg)
        × ((j : ℕ) → get j (end_splice id r.pairs) ≡ (if id == j then none else get j pairs))
  unfolding handle_resume_half handle_migrate_to_relay splice_back end_splice splice_pair
      replace_pair forget_pair
  resumed_halves_meet prior table =
      let p : StreamPair = record { consumer_uri = half.uri; provider_uri = matched.uri } in
      let (there, back) = splice_pair-Routed [] in
      (
        refl,
        refl,
        there,
        back,
        there,
        back,
        λ j. ground (arith, named, get-put id j p pairs, get-del id j (put id p pairs)),
      )

-- Once a stream has come back to the relay, it is no longer found among the migrated ones.
pub return_discards :
    (id now later : ℕ) (half matched : Half) (splicer : Bool) (pairs : Pairs) (m : MigratedLru)
    → let (prior, swept) = lookup_migrated id now m in
      let table = (handle_migrate_to_relay id half prior (some matched) splicer pairs swept).1 in
      (lookup_migrated id later table).0 ≡ none
unfolding handle_migrate_to_relay discard_prior discard lookup_migrated
return_discards id now later half matched splicer pairs m =
    ground (arith, get-del id id m, eq_refl id)

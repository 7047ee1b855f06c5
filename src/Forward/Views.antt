-- ===== src/Forward/Views.antt =====
-- What the tables of the plane say of one allocation, and how each table operation changes it.
use outrelay_relay.Common.{
  inl, inr, Option-cases, ℕ, Bool, true, false, ◌&&◌, Option, none, some, [], ◌∷◌, ◌≡◌, arith,
  if◌then◌else◌, length, ◌==◌, eq_iff, nat_eq, bytes_eq, Bytes, Dict, get, del, put, get-empty,
  get-del, get-put, length,
}
use outrelay_relay.Forward.State.{AddrPort, AllocEntry, IdSet}
use outrelay_relay.Forward.Alloc.{insert_id, remove_id}

abbrev pub owner_at : Option AllocEntry → Option Bytes
owner_at none = none
owner_at (some entry) = some entry.uri

abbrev pub src_at : Option AllocEntry → Option AddrPort
src_at none = none
src_at (some entry) = some entry.src

abbrev pub owned_by : Bytes → Option AllocEntry → Bool
owned_by uri none = false
owned_by uri (some entry) = entry.uri == uri

abbrev pub has : ℕ → Option IdSet → Bool
has id none = false
has id (some set) = elim (get id set) [ none ↦ false | some _ ↦ true ]

-- The agent's set of allocations has this one.
abbrev pub listed : Bytes → ℕ → Dict Bytes IdSet → Bool
listed uri id m = has id (get uri m)

pub listed-insert_id :
    (uri u : Bytes) (id i : ℕ) (m : Dict Bytes IdSet)
    → listed u i (insert_id uri id m) ≡ (if uri == u && id == i then true else listed u i m)
unfolding insert_id
listed-insert_id uri u id i m = elim (Option-cases (get uri m)) [
  | inl e ↦ ground (
    arith,
    eq_iff uri u,
    get-put uri u (put id tt []) m,
    get-put {0, 0} id i tt [],
    get-empty {V = Unit {0}} i,
  )
  | inr (set, e) ↦
      ground (arith, eq_iff uri u, get-put uri u (put id tt set) m, get-put {0, 0} id i tt set)
]

get_of_empty : (i : ℕ) (set : IdSet) → (length set == 0) ≡ true → get i set ≡ none
get_of_empty i [] h = get-empty i
get_of_empty i (x ∷ set) h = ground arith

pub listed-remove_id :
    (uri u : Bytes) (id i : ℕ) (m : Dict Bytes IdSet)
    → listed u i (remove_id uri id m) ≡ (if uri == u && id == i then false else listed u i m)
unfolding remove_id
listed-remove_id uri u id i m = elim (Option-cases (get uri m)) [
  | inl e ↦ ground (arith, eq_iff uri u)
  | inr (set, e) ↦ ground (
    arith,
    eq_iff uri u,
    get-put uri u (del id set) m,
    get-del uri u m,
    get-del id i set,
    get_of_empty i (del id set),
  )
]

-- ===== src/Start/Endpoints.antt =====
-- cmd/outrelay-relay/main.go: lists of endpoints and how they are written.
use outrelay_relay.Text.{Runes, comma, onto_first, split, join, trim_left, trim_right, trim_space}
use outrelay_relay.Start.{keep_items, split_endpoints, ℕ}
use outrelay_relay.Common.{
  ℕ, Bool, All, ◌≡◌, ◌++◌, List, ◌≢◌, [], ◌∷◌, arith, ◌∙◌, ap, eq_iff, refl, bytes_eq, true, sym,
  map, false,
}

-- The character does not occur.
abbrev Lacks : ℕ → Runes → Type 0
Lacks sep w = All (λ (c : ℕ). c ≢ sep) w

Lacks-append : (sep : ℕ) (w v : Runes) → Lacks sep w → Lacks sep v → Lacks sep (w ++ v)
Lacks-append sep [] v first last = last
Lacks-append sep (c ∷ w) v (other, first) last = (other, Lacks-append sep w v first last)

split-last : (sep : ℕ) (w : Runes) → Lacks sep w → split sep w ≡ w ∷ []
unfolding split onto_first
split-last sep [] lacks = refl
split-last sep (c ∷ cs) (other, lacks) = ground (arith, split-last sep cs lacks, other)

split-first :
    (sep : ℕ) (w rest : Runes) → Lacks sep w → split sep (w ++ sep ∷ rest) ≡ w ∷ split sep rest
unfolding split onto_first
split-first sep [] rest lacks = ground arith
split-first sep (c ∷ cs) rest (other, lacks) = ground (arith, split-first sep cs rest lacks, other)

split-join :
    (sep : ℕ) (w : Runes) (ws : List Runes)
    → All (Lacks sep) (w ∷ ws)
    → split sep (join sep (w ∷ ws)) ≡ w ∷ ws
unfolding join
split-join sep w [] (lacks, none_left) = split-last sep w lacks
split-join sep w (v ∷ ws) (lacks, others) =
    split-first sep w (join sep (v ∷ ws)) lacks
    ∙ ap (λ (xs : List Runes). w ∷ xs) (split-join sep v ws others)

-- An item of the list as it may be written: white space, or an endpoint with white space around it.
pub data Item : Type 0 where
  blank : Runes → Item
  padded : Runes → Runes → Runes → Item

unfoldable pub written : Item → Runes
written (blank w) = w
written (padded l ep r) = l ++ (ep ++ r)

unfoldable pub named_in : List Item → List Runes
named_in [] = []
named_in (blank w ∷ items) = named_in items
named_in (padded l ep r ∷ items) = ep ∷ named_in items

module _ (is_space : ℕ → Bool) where
  abbrev pub AllSpace : Runes → Type 0
  AllSpace w = All (λ (c : ℕ). is_space c ≡ true) w

  -- An endpoint: not empty, with no comma, and no space at its ends.
  abbrev pub Plain : Runes → Type 0
  Plain ep = (ep ≢ []) × All (λ (c : ℕ). c ≢ comma) ep × (trim_space is_space ep ≡ ep)

  abbrev pub Proper : Item → Type 0
  Proper (blank w) = AllSpace w
  Proper (padded l ep r) = AllSpace l × Plain ep × AllSpace r

  trim_left-pad : (l w : Runes) → AllSpace l → trim_left is_space (l ++ w) ≡ trim_left is_space w
  unfolding trim_left
  trim_left-pad [] w spaces = refl
  trim_left-pad (c ∷ l) w (space, spaces) = ground (arith, space, trim_left-pad l w spaces)

  trim_right-blank : (r : Runes) → AllSpace r → trim_right is_space r ≡ []
  unfolding trim_right
  trim_right-blank [] spaces = refl
  trim_right-blank (c ∷ r) (space, spaces) =
      ground (arith, space, trim_right-blank r spaces, eq_iff (trim_right is_space r) [])

  trim_right-pad : (w r : Runes) → AllSpace r → trim_right is_space (w ++ r) ≡ trim_right is_space w
  unfolding trim_right
  trim_right-pad [] r spaces = trim_right-blank r spaces
  trim_right-pad (c ∷ w) r spaces = rw (trim_right-pad w r spaces) refl

  still_some : (l w : Runes) → w ≢ [] → l ++ w ≢ []
  still_some [] w some_left = some_left
  still_some (c ∷ l) w some_left = λ h. ground (arith, h)

  -- Where something is left of the rest, a piece before it stays.
  trim_right-before :
      (l w : Runes)
      → trim_right is_space w ≢ []
      → trim_right is_space (l ++ w) ≡ l ++ trim_right is_space w
  unfolding trim_right
  trim_right-before [] w some_left = refl
  trim_right-before (c ∷ l) w some_left =
      let rest = trim_right is_space w in
      ground
        (arith, trim_right-before l w some_left, still_some l rest some_left, eq_iff (l ++ rest) [])

  trim_space-padded :
      (l ep r : Runes)
      → AllSpace l
      → Plain ep
      → AllSpace r
      → trim_space is_space (l ++ (ep ++ r)) ≡ ep
  unfolding trim_space trim_left
  trim_space-padded l ep r left (named, lacks, trimmed) right =
      let bare = trim_right-pad ep r right in
      let kept : trim_right is_space (ep ++ r) ≢ [] =
        λ gone. named (sym trimmed ∙ ap (trim_left is_space) (sym bare ∙ gone)) in
      ap (trim_left is_space) (trim_right-before l (ep ++ r) kept)
      ∙ trim_left-pad l (trim_right is_space (ep ++ r)) left
      ∙ ap (trim_left is_space) bare
      ∙ trimmed

  trim_left-none : trim_left is_space [] ≡ []
  unfolding trim_left
  trim_left-none = refl

  keep_items-none : keep_items is_space ([] ∷ []) ≡ []
  unfolding keep_items trim_space trim_left trim_right outrelay_relay.Common.bytes_beq
  keep_items-none = refl

  keep_items-written :
      (items : List Item)
      → All Proper items
      → keep_items is_space (map written items) ≡ named_in items
  unfolding keep_items written named_in trim_space
  keep_items-written [] proper = refl
  keep_items-written (blank w ∷ items) (spaces, proper) = ground (
    arith,
    trim_right-blank w spaces,
    keep_items-written items proper,
    eq_iff (trim_space is_space w) [],
    trim_left-none,
  )
  keep_items-written (padded l ep r ∷ items) ((left, plain, right), proper) = ground (
    arith,
    trim_space-padded l ep r left plain right,
    keep_items-written items proper,
    plain.0,
    eq_iff ep [],
  )

  module _ (solid : is_space comma ≡ false) where
    spaces-Lacks : (w : Runes) → AllSpace w → Lacks comma w
    spaces-Lacks [] spaces = tt
    spaces-Lacks (c ∷ w) (space, spaces) =
        (λ e. ground (arith, space, solid, ap is_space e), spaces-Lacks w spaces)

    written-Lacks : (items : List Item) → All Proper items → All (Lacks comma) (map written items)
    unfolding written
    written-Lacks [] proper = tt
    written-Lacks (blank w ∷ items) (spaces, proper) =
        (spaces-Lacks w spaces, written-Lacks items proper)
    written-Lacks (padded l ep r ∷ items) ((left, plain, right), proper) = (
      Lacks-append comma l (ep ++ r) (spaces-Lacks l left)
          (Lacks-append comma ep r plain.1 (spaces-Lacks r right)),
      written-Lacks items proper,
    )

    -- Where a comma is no space: of items joined by commas, each of which is white space alone or
    -- an endpoint with white space before and behind it, exactly the endpoints come back, in their
    -- order and without the white space; an endpoint is not empty, has no comma and no space at
    -- its ends. Characters are runes.
    pub split_endpoints-join :
        (items : List Item)
        → All Proper items
        → split_endpoints is_space (join comma (map written items)) ≡ named_in items
    unfolding split_endpoints join split keep_items named_in
    split_endpoints-join [] proper = keep_items-none
    split_endpoints-join (item ∷ items) proper =
        ap (keep_items is_space) (
          split-join comma (written item) (map written items) (written-Lacks (item ∷ items) proper))
        ∙ keep_items-written (item ∷ items) proper

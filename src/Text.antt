-- ===== src/Text.antt =====
-- The library functions on strings that the program calls: `strings.Split` at one character and
-- `strings.TrimSpace`, where `is_space` stands for `unicode.IsSpace`. Both are given the runes of a text, as
-- `TrimSpace` decodes them; a byte that is no part of valid UTF-8 is a rune of its own here, above those of
-- Unicode and no space. What uses the parts only passes them on or asks whether they are empty.
use outrelay_relay.Common.{Bytes, nat_eq, bytes_eq, false, true, ltb}
use outrelay_relay.Common.{ℕ, List, Bool, ◌∷◌, ◌++◌, if◌then◌else◌, ◌==◌, ◌&&◌, []}

abbrev pub Runes : Type 0
Runes = List ℕ

abbrev pub comma : ℕ
comma = 44

unfoldable pub onto_first : ℕ → List Runes → List Runes
onto_first c [] = (c ∷ []) ∷ []
onto_first c (w ∷ ws) = (c ∷ w) ∷ ws

unfoldable pub split : ℕ → Runes → List Runes
unfolding onto_first
split sep [] = [] ∷ []
split sep (c ∷ cs) = let rest = split sep cs in if c == sep then [] ∷ rest else onto_first c rest

unfoldable pub join : ℕ → List Runes → Runes
join sep [] = []
join sep (w ∷ []) = w
join sep (w ∷ v ∷ ws) = w ++ sep ∷ join sep (v ∷ ws)

module _ (is_space : ℕ → Bool) where
  unfoldable pub trim_left : Runes → Runes
  trim_left [] = []
  trim_left (c ∷ cs) = let rest = trim_left cs in if is_space c then rest else c ∷ cs

  unfoldable pub trim_right : Runes → Runes
  trim_right [] = []
  trim_right (c ∷ cs) =
      let rest = trim_right cs in if is_space c && rest == [] then [] else c ∷ rest

  unfoldable pub trim_space : Runes → Runes
  unfolding trim_left trim_right
  trim_space w = trim_left (trim_right w)

-- Go's `<` on strings.
unfoldable pub bytes_ltb : Bytes → Bytes → Bool
bytes_ltb s [] = false
bytes_ltb [] (b ∷ t) = true
bytes_ltb (a ∷ s) (b ∷ t) =
    let rest = bytes_ltb s t in if ltb a b then true else if ltb b a then false else rest

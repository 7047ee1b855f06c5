-- ===== src/Policy/Glob.antt =====
-- pkg/policy/matcher.go: `matchGlob`, over the functions of Go's `strings` that it calls.
pub mod Pieces
pub mod Sequence
pub mod Correct
use outrelay_relay.Common.{
  ℕ, suc, ◌+◌, ◌-◌, ◌≡◌, Bool, true, false, not, ◌&&◌, ◌||◌, Option, none, some, List, [], ◌∷◌, leb,
  if◌then◌else◌, length, drop, ◌==◌, nat_eq, bytes_eq, Bytes,
}

abbrev pub star : ℕ
star = b'*'

-- `strings.HasPrefix`
unfoldable pub has_prefix : Bytes → Bytes → Bool
has_prefix s [] = true
has_prefix [] (c ∷ p) = false
has_prefix (d ∷ s) (c ∷ p) = d == c && has_prefix s p

-- `strings.HasSuffix`
unfoldable pub has_suffix : Bytes → Bytes → Bool
has_suffix s p = leb (length p) (length s) && drop (length s - length p) s == p

abbrev succ_index : Option ℕ → Option ℕ
succ_index none = none
succ_index (some i) = some (suc i)

-- `strings.Index`; `none` is -1.
unfoldable pub index : Bytes → Bytes → Option ℕ
unfolding has_prefix
index [] p = if has_prefix [] p then some 0 else none
index (c ∷ s) p = if has_prefix (c ∷ s) p then some 0 else succ_index (index s p)

-- `strings.Contains(s, "*")`
unfoldable pub contains_star : Bytes → Bool
contains_star [] = false
contains_star (c ∷ s) = c == star || contains_star s

-- `strings.Split(s, "*")`: the first piece, and the others.
unfoldable pub split_star : Bytes → Bytes × List Bytes
split_star [] = ([], [])
split_star (c ∷ s) =
    let (first, others) = split_star s in
    if c == star then ([], first ∷ others) else (c ∷ first, others)

-- The loop over the middle pieces, and the test of the last one.
unfoldable pub match_pieces : List Bytes → Bytes → Bool
match_pieces [] s = has_suffix s []
match_pieces (last ∷ []) s = has_suffix s last
match_pieces (p ∷ q ∷ ps) s = elim (index s p) [
  | none ↦ false
  | some i ↦ match_pieces (q ∷ ps) (drop (i + length p) s)
]

unfoldable pub match_split : Bytes × List Bytes → Bytes → Bool
match_split (first, others) s =
    if not (has_prefix s first) then false else match_pieces others (drop (length first) s)

unfoldable pub match_glob : Bytes → Bytes → Bool
unfolding match_split
match_glob pattern s =
    if pattern == []
    then s == []
    else if not (contains_star pattern)
    then pattern == s
    else if pattern == star ∷ []
    then true
    else match_split (split_star pattern) s

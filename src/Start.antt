-- ===== src/Start.antt =====
-- cmd/outrelay-relay/main.go: what is read off the flags, and which peers count as relays. `is_space`
-- stands for `unicode.IsSpace`; the list of endpoints is given by its runes.
pub mod Endpoints
pub mod Tls
pub mod Setup
pub mod Shutdown
mod Samples
use outrelay_relay.Text.{Runes, comma, split, trim_space}
use outrelay_relay.Common.{
  Bytes, Bool, List, ℕ, if◌then◌else◌, ◌==◌, Option, ◌∷◌, codes, [], false, ◌&&◌, some, bytes_eq,
  ltb, true, length, none, take,
}

-- `slog.Level`
pub data Level : Type 0 where
  level_debug level_info level_warn level_error : Level

unfoldable pub parse_log_level : Bytes → Level
parse_log_level s =
    if s == codes "debug"
    then level_debug
    else if s == codes "warn"
    then level_warn
    else if s == codes "error"
    then level_error
    else level_info

-- The relay's id and the endpoint that it advertises, from the flags and the listen address.
unfoldable pub or_listen : Bytes → Bytes → Bytes
or_listen flag listen = if flag == [] then listen else flag

-- The parts of a URI that are looked at.
pub record Uri : Type 0 where
  pub scheme : Bytes
  pub segments : Bytes

-- `u.Scheme == "outrelay" && len(u.Path) > len("/relay/") && u.Path[:len("/relay/")] == "/relay/"`
unfoldable pub is_relay_uri : Uri → Bool
is_relay_uri u =
    u.scheme == codes "outrelay"
    && ltb (length (codes "/relay/")) (length u.segments)
    && take (length (codes "/relay/")) u.segments == codes "/relay/"

-- The URIs of the leaf; one that is nil is `none`.
unfoldable pub any_relay_uri : List (Option Uri) → Bool
unfolding is_relay_uri
any_relay_uri [] = false
any_relay_uri (none ∷ uris) = any_relay_uri uris
any_relay_uri (some u ∷ uris) =
    let rest = any_relay_uri uris in if is_relay_uri u then true else rest

-- `chains` has the URIs of each certificate of each verified chain.
unfoldable pub verify_peer_is_relay : List (List (List (Option Uri))) → Bool
unfolding any_relay_uri
verify_peer_is_relay [] = false
verify_peer_is_relay ([] ∷ chains) = false
verify_peer_is_relay ((leaf ∷ certs) ∷ chains) = any_relay_uri leaf

module _ (is_space : ℕ → Bool) where
  unfoldable pub keep_items : List Runes → List Runes
  keep_items [] = []
  keep_items (ep ∷ eps) =
      let rest = keep_items eps in
      let trimmed = trim_space is_space ep in if trimmed == [] then rest else trimmed ∷ rest

  unfoldable pub split_endpoints : Runes → List Runes
  unfolding keep_items
  split_endpoints raw = keep_items (split comma raw)

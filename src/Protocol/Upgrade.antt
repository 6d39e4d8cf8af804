-- ===== src/Protocol/Upgrade.antt =====
-- internal/protocol/protocol.go: WebSocket upgrades are recognised by the Upgrade header.
pub mod Laws
use vlgr.Prelude.{ℕ, Bool, true, false, ◌&&◌, ◌||◌, List, [], ◌∷◌, Option, none, some}
use vlgr.Prelude.Assoc.{bytes_key, lookup}
use vlgr.Prelude.Bytes.{codes}
use vlgr.Prelude.Text.{split, trim_space, equal_fold}
use vlgr.Protocol.{Headers}

-- the loop over the comma-separated parts of one value
unfoldable pub any_websocket : List (List ℕ) → Bool
unfolding trim_space equal_fold
any_websocket [] = false
any_websocket (part ∷ parts) =
    equal_fold (trim_space part) (codes "websocket") || any_websocket parts

unfoldable pub contains_websocket : List (List ℕ) → Bool
unfolding any_websocket split
contains_websocket [] = false
contains_websocket (v ∷ values) = any_websocket (split b',' v) || contains_websocket values

-- `r.Header["Upgrade"]` is nil where the header is missing.
unfoldable pub is_websocket_upgrade : Headers → Bool
unfolding contains_websocket lookup
is_websocket_upgrade header = elim (lookup (codes "Upgrade") header) [
  | none ↦ contains_websocket []
  | some values ↦ contains_websocket values
]

unfoldable pub is_websocket_upgrade_req : Headers → Bool
unfolding contains_websocket equal_fold
is_websocket_upgrade_req [] = false
is_websocket_upgrade_req ((k, values) ∷ headers) =
    (equal_fold k (codes "Upgrade") && contains_websocket values)
    || is_websocket_upgrade_req headers

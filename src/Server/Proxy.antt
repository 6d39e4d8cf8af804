-- ===== src/Server/Proxy.antt =====
-- internal/server/proxy.go: which headers of a client's response reach the public side.
pub mod Splitting
pub mod Serving
use vlgr.Prelude.{
  ℕ, Bool, true, false, not, ◌||◌, ◌&&◌, List, [], ◌∷◌, all, leb, ◌==◌, if◌then◌else◌,
}
use vlgr.Protocol.{Headers}

unfoldable pub is_name_byte : ℕ → Bool
is_name_byte c =
    (leb b'a' c && leb c b'z')
    || (leb b'A' c && leb c b'Z')
    || (leb b'0' c && leb c b'9')
    || c == b'-'
    || c == b'_'
    || c == b'.'

unfoldable pub valid_header_name : List ℕ → Bool
unfolding is_name_byte
valid_header_name [] = false
valid_header_name (c ∷ s) = all is_name_byte (c ∷ s)

-- '\r' is 13 and '\n' is 10.
unfoldable pub valid_header_value : List ℕ → Bool
valid_header_value [] = true
valid_header_value (c ∷ s) =
    let rest = valid_header_value s in
    if c == 13 || c == 10 then false else if c == 0 then false else rest

module _ {S : Type 0} (add : S → List ℕ → List ℕ → S) where
  unfoldable pub copy_values : S → List ℕ → List (List ℕ) → S
  unfolding valid_header_value
  copy_values w key [] = w
  copy_values w key (v ∷ vs) = copy_values (if valid_header_value v then add w key v else w) key vs

  -- `add` is the callback, on what it writes to.
  unfoldable pub copy_valid_headers : S → Headers → S
  unfolding valid_header_name copy_values
  copy_valid_headers w [] = w
  copy_valid_headers w ((key, values) ∷ headers) =
      copy_valid_headers (if valid_header_name key then copy_values w key values else w) headers

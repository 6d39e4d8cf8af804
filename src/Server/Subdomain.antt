-- ===== src/Server/Subdomain.antt =====
-- internal/server: validSubdomain of handler.go and extractSubdomain of proxy.go.
pub mod Hosts
use vlgr.Prelude.{
  ℕ, Bool, true, false, not, ◌&&◌, ◌||◌, List, [], ◌∷◌, ◌++◌, length, all, ltb, leb, ◌==◌, bytes_eq,
  if◌then◌else◌,
}
use vlgr.Prelude.Text.{before_byte, contains_byte, has_suffix, trim_suffix}
use vlgr.Protocol.{max_subdomain_len}

unfoldable pub is_label_byte : ℕ → Bool
is_label_byte c =
    (leb b'a' c && leb c b'z')
    || (leb b'A' c && leb c b'Z')
    || (leb b'0' c && leb c b'9')
    || c == b'-'

unfoldable pub valid_subdomain : List ℕ → Bool
unfolding is_label_byte
valid_subdomain [] = true
valid_subdomain (c ∷ s) =
    if ltb max_subdomain_len (length (c ∷ s)) then false else all is_label_byte (c ∷ s)

-- The empty string says that the host is no subdomain of the base domain.
unfoldable pub extract_subdomain : List ℕ → List ℕ → List ℕ
unfolding valid_subdomain before_byte contains_byte has_suffix trim_suffix bytes_eq
extract_subdomain host base_domain =
    let host = before_byte b':' host in
    let base_domain = before_byte b':' base_domain in
    let suffix = b'.' ∷ base_domain in
    if bytes_eq host base_domain || not (has_suffix host suffix)
    then []
    else let prefix = trim_suffix host suffix in
      if bytes_eq prefix [] || contains_byte b'.' prefix
      then []
      else if not (valid_subdomain prefix)
      then []
      else prefix

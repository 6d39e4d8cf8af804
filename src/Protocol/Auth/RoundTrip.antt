-- ===== src/Protocol/Auth/RoundTrip.antt =====
-- The authentication payloads, encoded and decoded.
use vlgr.Prelude.{ℕ, ◌≤◌, ◌≡◌, List, [], ◌∷◌, ◌++◌, arith, length, length-append, le→ltb}
use vlgr.Prelude.Outcome.{ok}
use vlgr.Prelude.Bytes.{put_be, length-put_be}
use vlgr.Protocol.{max_string_len, max_version_len}
use vlgr.Protocol.Wire.{write_string, read_uint, read_string}
use vlgr.Protocol.Wire.Laws.{read_string-put_be, read_string-write_string, write_string_fits}
use vlgr.Protocol.Auth.{encode_auth, decode_auth, encode_auth_ok, decode_auth_ok}
use mathlib.Core.List.{append-nil}

-- A token of at most 65535 bytes and a version of at most 255, empty ones included, come back
-- as they were.
decode_auth-encode_auth :
    (token version : List ℕ)
    → length token ≤ max_string_len
    → length version ≤ max_version_len
    → (b : List ℕ) × (encode_auth token version ≡ ok b) × (decode_auth b ≡ ok (token, version))
unfolding encode_auth decode_auth
decode_auth-encode_auth token version t v = (
  first ++ second,
  rw (
    le→ltb max_version_len (length version) v,
    write_string_fits token t,
    write_string_fits version (omega arith),
  ),
  rw (read_string-put_be token second t, le→ltb (length second) 2 long)
      (rw (← append-nil second) (rw (read_string-put_be version [] (omega arith)))),
)
  where
    first : List ℕ
    first = put_be 2 (length token) ++ token

    second : List ℕ
    second = put_be 2 (length version) ++ version

    long : 2 ≤ length second
    long =
        omega (
          arith,
          length-append (put_be 2 (length version)) version,
          length-put_be 2 (length version),
        )

-- A client that sends its token alone is accepted with an empty version.
pub decode_auth_old_client :
    (token b : List ℕ) → write_string token ≡ ok b → decode_auth b ≡ ok (token, [])
unfolding decode_auth
decode_auth_old_client token b h = rw (← append-nil b) (rw (read_string-write_string token b [] h))

-- Only an empty payload is not read as a string.
decode_auth_ok_string : (b v rest : List ℕ) → read_string b ≡ ok (v, rest) → decode_auth_ok b ≡ ok v
unfolding decode_auth_ok
decode_auth_ok_string [] v rest h = unfold read_string read_uint in cc
decode_auth_ok_string (x ∷ xs) v rest h = rw h

-- The server's version of at most 255 bytes comes back as it was.
pub decode_auth_ok-encode_auth_ok :
    (version : List ℕ)
    → length version ≤ max_version_len
    → (b : List ℕ) × (encode_auth_ok version ≡ ok b) × (decode_auth_ok b ≡ ok version)
unfolding encode_auth_ok
decode_auth_ok-encode_auth_ok version v = (
  put_be 2 (length version) ++ version,
  rw (le→ltb max_version_len (length version) v, write_string_fits version (omega arith)),
  decode_auth_ok_string _ version [] (
      rw (← append-nil (put_be 2 (length version) ++ version))
        (read_string-put_be version [] (omega arith))),
)

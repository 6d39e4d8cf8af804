-- ===== src/Protocol/Auth.antt =====
-- internal/protocol/protocol.go: the payloads of the authentication handshake.
pub mod RoundTrip
use vlgr.Prelude.{ℕ, List, [], ◌∷◌, ◌++◌, length, ltb, if◌then◌else◌}
use vlgr.Prelude.Outcome.{Outcome, ok, ◌>>=◌, ◌>>◌, refuse_if}
use vlgr.Protocol.{Error, version_too_long, max_version_len}
use vlgr.Protocol.Wire.{write_string, read_string}

-- The second writeString cannot fail, since the version is at most 255 bytes.
unfoldable pub encode_auth : List ℕ → List ℕ → Outcome Error (List ℕ)
encode_auth token client_version = do
  refuse_if (ltb max_version_len (length client_version)) version_too_long
  b ← write_string token
  v ← write_string client_version
  ok (b ++ v)

unfoldable pub decode_auth : List ℕ → Outcome Error (List ℕ × List ℕ)
decode_auth payload = do
  (token, r) ← read_string payload
  if ltb (length r) 2
      then ok (token, [])
      else do (client_version, _) ← read_string r; ok (token, client_version)

unfoldable pub encode_auth_ok : List ℕ → Outcome Error (List ℕ)
encode_auth_ok server_version = do
  refuse_if (ltb max_version_len (length server_version)) version_too_long
  write_string server_version

unfoldable pub decode_auth_ok : List ℕ → Outcome Error (List ℕ)
decode_auth_ok [] = ok []
decode_auth_ok (b ∷ bs) = do (v, _) ← read_string (b ∷ bs); ok v

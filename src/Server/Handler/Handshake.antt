-- ===== src/Server/Handler/Handshake.antt =====
-- internal/server/handler.go: handleAuth.
use vlgr.Prelude.{ℕ, Bool, true, List, [], ◌∷◌, bytes_eq, if◌then◌else◌}
use vlgr.Prelude.Outcome.{Outcome, ok, err}
use vlgr.Protocol.{Error, Frame, msg_auth_ok, msg_auth_err}
use vlgr.Protocol.Auth.{decode_auth, encode_auth_ok}
use vlgr.Server.Handler.State.{
  World, Env, malformed_auth, invalid_token, bytes, text, write_message,
}
use vlgr.Server.Handler.Cleanup.{cleanup}

-- The test of the token: a handler with an empty expected token takes any. `h.expectedHash` is
-- the hash of the expected token, and hashes are compared byte by byte.
unfoldable pub token_ok : Env → List ℕ → List ℕ → Bool
unfolding bytes_eq
token_ok env [] token = true
token_ok env (c ∷ cs) token = bytes_eq (env.sha256 (c ∷ cs)) (env.sha256 token)

unfoldable pub auth_ok_payload : Outcome Error (List ℕ) → List ℕ
auth_ok_payload (ok b) = b
auth_ok_payload (err e) = []

unfoldable pub accept : World → Env → List ℕ → World
unfolding write_message auth_ok_payload
accept w env client_version =
    write_message
      (record w {
        handler = record w.handler { authenticated = true; client_version = client_version };
      })
      msg_auth_ok 0 0 (bytes (auth_ok_payload (encode_auth_ok env.version)))

unfoldable pub handle_auth : World → Env → Frame → World
unfolding token_ok accept cleanup write_message
handle_auth w env frame = elim (decode_auth frame.payload) [
  | err e ↦ cleanup (write_message w msg_auth_err 0 0 (text malformed_auth))
  | ok (token, client_version) ↦
      if token_ok env w.expected_token token
      then accept w env client_version
      else cleanup (write_message w msg_auth_err 0 0 (text invalid_token))
]

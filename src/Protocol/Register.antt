-- ===== src/Protocol/Register.antt =====
-- internal/protocol/protocol.go: the payloads of the registration messages.
pub mod RoundTrip
use vlgr.Prelude.{ℕ, ◌+◌, List, [], ◌∷◌, ◌++◌, length, take, drop, get_or, ltb, if◌then◌else◌}
use vlgr.Prelude.Outcome.{Outcome, ok, err, ◌>>=◌, ◌>>◌, refuse_if}
use vlgr.Prelude.Bytes.{put_be, get_be}
use vlgr.Protocol.{
  Error, subdomain_too_long, register_too_short, register_truncated, url_too_long,
  register_ok_too_short, register_ok_truncated, tcp_register_too_short, max_subdomain_len,
}

-- `if subdomain != "" { ... }`
unfoldable pub subdomain_part : List ℕ → List ℕ
subdomain_part [] = []
subdomain_part (c ∷ cs) = length (c ∷ cs) ∷ c ∷ cs

unfoldable pub encode_register : ℕ → List ℕ → Outcome Error (List ℕ)
unfolding subdomain_part
encode_register port subdomain = do
  refuse_if (ltb max_subdomain_len (length subdomain)) subdomain_too_long
  ok (put_be 2 port ++ subdomain_part subdomain)

unfoldable pub decode_register : List ℕ → Outcome Error (ℕ × List ℕ)
decode_register payload = do
  refuse_if (ltb (length payload) 2) register_too_short
  let port = get_be 0 (take 2 payload)
  if ltb (length payload) 3 then ok (port, []) else do
    let n = get_or payload 2 0
    refuse_if (ltb max_subdomain_len n) subdomain_too_long
    refuse_if (ltb (length payload) (3 + n)) register_truncated
    ok (port, take n (drop 3 payload))

unfoldable pub encode_register_ok : List ℕ → ℕ → Outcome Error (List ℕ)
encode_register_ok public_url tunnel_id = do
  refuse_if (ltb 255 (length public_url)) url_too_long
  ok (length public_url ∷ (public_url ++ put_be 8 tunnel_id))

unfoldable pub decode_register_ok : List ℕ → Outcome Error (List ℕ × ℕ)
decode_register_ok [] = err register_ok_too_short
decode_register_ok (n ∷ rest) = do
  refuse_if (ltb (1 + length rest) (1 + n + 8)) register_ok_truncated
  ok (take n rest, get_be 0 (take 8 (drop n rest)))

unfoldable pub encode_register_tcp : ℕ → ℕ → List ℕ
encode_register_tcp local_port remote_port = put_be 2 local_port ++ put_be 2 remote_port

unfoldable pub decode_register_tcp : List ℕ → Outcome Error (ℕ × ℕ)
decode_register_tcp payload = do
  refuse_if (ltb (length payload) 4) tcp_register_too_short
  ok (get_be 0 (take 2 payload), get_be 0 (take 2 (drop 2 payload)))

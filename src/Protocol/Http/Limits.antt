-- ===== src/Protocol/Http/Limits.antt =====
-- Where the encoders accept what the decoders refuse.
use vlgr.Prelude.{ℕ, ◌<◌, ◌^◌, ◌≡◌, List, ◌++◌, arith, length, lt→ltb}
use vlgr.Prelude.Outcome.{ok, err, >>=-eq-ok, ok-injective}
use vlgr.Prelude.Bytes.{put_be}
use vlgr.Protocol.{Headers, HttpRequest, HttpResponse, too_many_headers, max_headers}
use vlgr.Protocol.Wire.{write_string}
use vlgr.Protocol.Wire.Laws.{read_uint-put_be, read_string-write_string}
use vlgr.Protocol.Http.{
  write_fields, write_headers, read_headers, write_body, encode_http_request, decode_http_request,
  encode_http_response, decode_http_response,
}
use mathlib.Core.List.{append_assoc}

-- The writer does not count the headers; the reader refuses more than 256.
read_headers_many :
    (hs : Headers) (b rest : List ℕ)
    → max_headers < length hs
    → length hs < 2 ^ 32
    → write_headers hs ≡ ok b
    → read_headers (b ++ rest) ≡ err too_many_headers
unfolding write_headers read_headers
read_headers_many hs b rest many small h =
    let (fields, e, h') = >>=-eq-ok (write_fields hs) _ h in
    rw (
      ← ok-injective h',
      append_assoc (put_be 4 (length hs)) fields rest,
      read_uint-put_be 4 (length hs) (fields ++ rest) (omega arith),
      lt→ltb max_headers (length hs) many,
    )

-- A request with more than 256 header keys that the server encodes is refused by the client's
-- decoder.
pub decode_http_request_many :
    (req : HttpRequest) (b : List ℕ)
    → max_headers < length req.headers
    → length req.headers < 2 ^ 32
    → encode_http_request req ≡ ok b
    → decode_http_request b ≡ err too_many_headers
unfolding encode_http_request decode_http_request
decode_http_request_many req b many small h =
    let (m, e₁, h₁) = >>=-eq-ok (write_string req.method) _ h in
    let (p, e₂, h₂) = >>=-eq-ok (write_string req.path) _ h₁ in
    let (hs, e₃, h₃) = >>=-eq-ok (write_headers req.headers) _ h₂ in
    let body = write_body req.body req.body_streamed in
    rw (
      ← ok-injective h₃,
      read_string-write_string req.method m (p ++ (hs ++ body)) e₁,
      read_string-write_string req.path p (hs ++ body) e₂,
      read_headers_many req.headers hs body many small e₃,
    )

-- A response with more than 256 header keys that the client encodes is refused by the server's
-- decoder.
pub decode_http_response_many :
    (resp : HttpResponse) (b : List ℕ)
    → resp.status_code < 2 ^ 16
    → max_headers < length resp.headers
    → length resp.headers < 2 ^ 32
    → encode_http_response resp ≡ ok b
    → decode_http_response b ≡ err too_many_headers
unfolding encode_http_response decode_http_response
decode_http_response_many resp b status many small h =
    let (hs, e, h') = >>=-eq-ok (write_headers resp.headers) _ h in
    let body = write_body resp.body resp.body_streamed in
    rw (
      ← ok-injective h',
      read_uint-put_be 2 resp.status_code (hs ++ body) (omega arith),
      read_headers_many resp.headers hs body many small e,
    )

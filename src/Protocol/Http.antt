-- ===== src/Protocol/Http.antt =====
-- internal/protocol/protocol.go: writeHeaders, readHeaders, writeBody, readBody and the
-- encoders and decoders of HTTP requests and responses.
pub mod Fields
pub mod Bounds
pub mod RoundTrip
pub mod Limits
use vlgr.Prelude.{
  ℕ, zero, suc, ◌+◌, ◌*◌, Bool, true, false, List, [], ◌∷◌, ◌++◌, length, take, drop, ltb, ◌==◌,
  if◌then◌else◌,
}
use vlgr.Prelude.Outcome.{Outcome, ok, err, ◌>>=◌, ◌>>◌, refuse_if}
use vlgr.Prelude.Assoc.{bytes_key, insert}
use vlgr.Prelude.Bytes.{put_be}
use vlgr.Protocol.{
  Headers, HttpRequest, HttpResponse, Error, too_many_headers, headers_do_not_fit, too_many_values,
  body_too_large, body_truncated, max_headers, max_values_per_header, max_body_size,
  streamed_body_len,
}
use vlgr.Protocol.Wire.{Read, read_uint, write_string, read_string}

-- the loop over one header's values
unfoldable pub write_values : List (List ℕ) → Outcome Error (List ℕ)
write_values [] = ok []
write_values (v ∷ vs) = do b ← write_string v; rest ← write_values vs; ok (b ++ rest)

-- the loop over the headers
unfoldable pub write_fields : Headers → Outcome Error (List ℕ)
write_fields [] = ok []
write_fields ((k, vs) ∷ hs) = do
  b ← write_string k
  values ← write_values vs
  rest ← write_fields hs
  ok (b ++ (put_be 4 (length vs) ++ (values ++ rest)))

unfoldable pub write_headers : Headers → Outcome Error (List ℕ)
write_headers headers = do fields ← write_fields headers; ok (put_be 4 (length headers) ++ fields)

-- the inner loop of readHeaders: `n` values are still to be read
unfoldable pub read_values : ℕ → List ℕ → Read (List (List ℕ))
read_values zero r = ok ([], r)
read_values (suc n) r = do (v, r') ← read_string r; (vs, r'') ← read_values n r'; ok (v ∷ vs, r'')

-- the outer loop: a key that comes again replaces the values that it had
unfoldable pub read_fields : ℕ → Headers → List ℕ → Read Headers
read_fields zero headers r = ok (headers, r)
read_fields (suc n) headers r = do
  (k, r') ← read_string r
  (count, r'') ← read_uint 4 r'
  refuse_if (ltb max_values_per_header count) too_many_values
  (values, rest) ← read_values count r''
  read_fields n (insert k values headers) rest

unfoldable pub read_headers : List ℕ → Read Headers
read_headers r = do
  (count, rest) ← read_uint 4 r
  refuse_if (ltb max_headers count) too_many_headers
  refuse_if (ltb (length rest) (count * 2)) headers_do_not_fit
  read_fields count [] rest

unfoldable pub write_body : List ℕ → Bool → List ℕ
write_body body streamed =
    if streamed then put_be 4 streamed_body_len else put_be 4 (length body) ++ body

-- The body, and whether it is streamed. io.ReadFull fails when bytes are missing.
unfoldable pub read_body : List ℕ → Outcome Error (List ℕ × Bool)
read_body r = do
  (body_len, rest) ← read_uint 4 r
  if body_len == streamed_body_len then ok ([], true) else do
    refuse_if (ltb max_body_size body_len) body_too_large
    refuse_if (ltb (length rest) body_len) body_truncated
    ok (take body_len rest, false)

unfoldable pub encode_http_request : HttpRequest → Outcome Error (List ℕ)
encode_http_request req = do
  method ← write_string req.method
  path ← write_string req.path
  headers ← write_headers req.headers
  ok (method ++ (path ++ (headers ++ write_body req.body req.body_streamed)))

unfoldable pub decode_http_request : List ℕ → Outcome Error HttpRequest
decode_http_request input = do
  (method, r) ← read_string input
  (path, r') ← read_string r
  (headers, r'') ← read_headers r'
  (body, streamed) ← read_body r''
  ok (record {
    method = method;
    path = path;
    headers = headers;
    body = body;
    body_streamed = streamed;
  })

unfoldable pub encode_http_response : HttpResponse → Outcome Error (List ℕ)
encode_http_response resp = do
  headers ← write_headers resp.headers
  ok (put_be 2 resp.status_code ++ (headers ++ write_body resp.body resp.body_streamed))

unfoldable pub decode_http_response : List ℕ → Outcome Error HttpResponse
decode_http_response input = do
  (status, r) ← read_uint 2 input
  (headers, r') ← read_headers r
  (body, streamed) ← read_body r'
  ok (record { status_code = status; headers = headers; body = body; body_streamed = streamed })

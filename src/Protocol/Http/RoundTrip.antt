-- ===== src/Protocol/Http/RoundTrip.antt =====
-- The encoders of requests and responses against their decoders.
use vlgr.Prelude.{
  ℕ, ◌≤◌, ◌<◌, ◌≡◌, refl, Bool, true, false, List, [], ◌∷◌, ◌++◌, arith, length, length-append, All,
  take-append, le→ltb, ne→==, ◌^◌,
}
use vlgr.Prelude.Outcome.{ok}
use vlgr.Prelude.Bytes.{put_be}
use vlgr.Protocol.{Headers, HttpRequest, HttpResponse, max_string_len, max_body_size}
use vlgr.Protocol.Wire.Laws.{read_uint-put_be, read_string-write_string, write_string_fits}
use vlgr.Protocol.Http.{
  write_values, write_fields, write_headers, write_body, read_body, encode_http_request,
  decode_http_request, encode_http_response, decode_http_response,
}
use vlgr.Protocol.Http.Fields.{IsReadable, read_headers-write_headers}
use mathlib.Core.List.{append_assoc}

abbrev pub Short : List ℕ → Type 0
Short s = length s ≤ max_string_len

abbrev pub ShortField : List ℕ × List (List ℕ) → Type 0
ShortField h = Short h.0 × All Short h.1

-- A streamed body is not in the message; an inline one is within the limit.
abbrev pub BodyFits : Bool → List ℕ → Type 0
BodyFits true body = body ≡ []
BodyFits false body = length body ≤ max_body_size

-- A message that the writer accepts and that keeps the reader's limits.
pub record IsSendable (req : HttpRequest) : Type 0 where
  pub method : Short req.method
  pub path : Short req.path
  pub fields : All ShortField req.headers
  pub readable : IsReadable req.headers
  pub body : BodyFits req.body_streamed req.body

pub record IsSendableResponse (resp : HttpResponse) : Type 0 where
  pub status : resp.status_code < 2 ^ 16
  pub fields : All ShortField resp.headers
  pub readable : IsReadable resp.headers
  pub body : BodyFits resp.body_streamed resp.body

write_values_total : (vs : List (List ℕ)) → All Short vs → (b : List ℕ) × (write_values vs ≡ ok b)
unfolding write_values
write_values_total [] h = ([], refl)
write_values_total (v ∷ vs) h =
    let (b, e) = write_values_total vs h.1 in
    ((put_be 2 (length v) ++ v) ++ b, rw (write_string_fits v h.0, e))

write_fields_total : (hs : Headers) → All ShortField hs → (b : List ℕ) × (write_fields hs ≡ ok b)
unfolding write_fields
write_fields_total [] h = ([], refl)
write_fields_total ((k, vs) ∷ hs) h =
    let (b, e) = write_values_total vs h.0.1 in
    let (b', e') = write_fields_total hs h.1 in
    (
      (put_be 2 (length k) ++ k) ++ (put_be 4 (length vs) ++ (b ++ b')),
      rw (write_string_fits k h.0.0, e, e'),
    )

pub write_headers_total :
    (hs : Headers) → All ShortField hs → (b : List ℕ) × (write_headers hs ≡ ok b)
unfolding write_headers
write_headers_total hs h = let (b, e) = write_fields_total hs h in (put_be 4 (length hs) ++ b, rw e)

pub read_body-write_body :
    (body : List ℕ) (streamed : Bool) (more : List ℕ)
    → BodyFits streamed body
    → read_body (write_body body streamed ++ more) ≡ ok (body, streamed)
unfolding read_body write_body
read_body-write_body body true more h = rw (read_uint-put_be 4 0xFFFFFFFF more (omega arith), h)
read_body-write_body body false more h = rw (
  append_assoc (put_be 4 (length body)) body more,
  read_uint-put_be 4 (length body) (body ++ more) (omega arith),
  ne→== (length body) 0xFFFFFFFF (omega arith),
  le→ltb max_body_size (length body) h,
  le→ltb (length (body ++ more)) (length body) (omega (arith, length-append body more)),
  take-append (length body) body more refl,
)

-- Every sendable request encodes, and what it encodes to decodes to the request, whatever
-- bytes follow.
pub decode_http_request-encode_http_request :
    (req : HttpRequest) (more : List ℕ)
    → IsSendable req
    → (b : List ℕ) × (encode_http_request req ≡ ok b) × (decode_http_request (b ++ more) ≡ ok req)
unfolding encode_http_request decode_http_request
decode_http_request-encode_http_request req more s =
    let (hs, e) = write_headers_total req.headers s.fields in
    let method = write_string_fits req.method s.method in
    let path = write_string_fits req.path s.path in
    let m = put_be 2 (length req.method) ++ req.method in
    let p = put_be 2 (length req.path) ++ req.path in
    let body = write_body req.body req.body_streamed in
    (
      m ++ (p ++ (hs ++ body)),
      rw (method, path, e),
      rw
          (
            append_assoc m (p ++ (hs ++ body)) more,
            append_assoc p (hs ++ body) more,
            append_assoc hs body more,
          )
          (rw (
            read_string-write_string req.method m (p ++ (hs ++ (body ++ more))) method,
            read_string-write_string req.path p (hs ++ (body ++ more)) path,
            read_headers-write_headers req.headers hs (body ++ more) s.readable e,
            read_body-write_body req.body req.body_streamed more s.body,
          )),
    )

-- Every sendable response, whose status code is 16 bits wide, encodes, and what it encodes to
-- decodes to the response, whatever bytes follow.
pub decode_http_response-encode_http_response :
    (resp : HttpResponse) (more : List ℕ)
    → IsSendableResponse resp
    → (b : List ℕ) × (encode_http_response resp ≡ ok b)
      × (decode_http_response (b ++ more) ≡ ok resp)
unfolding encode_http_response decode_http_response
decode_http_response-encode_http_response resp more s =
    let (hs, e) = write_headers_total resp.headers s.fields in
    let status = put_be 2 resp.status_code in
    let body = write_body resp.body resp.body_streamed in
    (
      status ++ (hs ++ body),
      rw e,
      rw (append_assoc status (hs ++ body) more, append_assoc hs body more)
          (rw (
            read_uint-put_be 2 resp.status_code (hs ++ (body ++ more)) (omega (arith, s.status)),
            read_headers-write_headers resp.headers hs (body ++ more) s.readable e,
            read_body-write_body resp.body resp.body_streamed more s.body,
          )),
    )

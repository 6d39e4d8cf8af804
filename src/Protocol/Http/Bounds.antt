-- ===== src/Protocol/Http/Bounds.antt =====
-- What the decoders let through, whatever bytes arrive.
use vlgr.Prelude.{
  ℕ, zero, suc, ◌+◌, ◌*◌, ◌≤◌, ◌<◌, ◌^◌, ◌≡◌, refl, ap, Bool, true, false, List, [], arith, length,
  All, All-take, All-drop, take, drop, ltb, length-take,
}
use vlgr.Prelude.Outcome.{ok, refuse_if, >>=-eq-ok, ok-injective}
use vlgr.Prelude.Assoc.{bytes_key, IsMap, insert, insert-IsMap, All-insert, length-insert-le}
use vlgr.Prelude.Bytes.{IsByte, get_be, get_be-lt}
use vlgr.Protocol.{
  Headers, HttpRequest, HttpResponse, too_many_headers, too_many_values, headers_do_not_fit,
  max_headers, max_values_per_header,
}
use vlgr.Protocol.Wire.{read_uint, read_string}
use vlgr.Protocol.Wire.Laws.{read_uint_takes}
use vlgr.Protocol.Http.{
  read_values, read_fields, read_headers, read_body, decode_http_request, decode_http_response,
}
use vlgr.Protocol.Http.Fields.{IsReadable, FewValues}
use vlgr.Protocol.Http.RoundTrip.{Short, ShortField, BodyFits, IsSendable, IsSendableResponse}

-- A read string has a two-byte length, and what is left of the bytes are bytes.
read_string-Short :
    (r s rest : List ℕ) → All IsByte r → read_string r ≡ ok (s, rest) → Short s × All IsByte rest
unfolding read_string read_uint
read_string-Short r s rest b h = ground (
  arith,
  length-take (get_be 0 (take 2 r)) (drop 2 r),
  length-take 2 r,
  get_be-lt 2 (take 2 r),
  All-take IsByte 2 r b,
  All-drop IsByte (get_be 0 (take 2 r)) (drop 2 r) (All-drop IsByte 2 r b),
)

read_uint_bytes :
    (w n : ℕ) (r rest : List ℕ) → All IsByte r → read_uint w r ≡ ok (n, rest) → All IsByte rest
read_uint_bytes w n r rest b h =
    let (_, _, e) = read_uint_takes w n r rest h in rw e (All-drop IsByte w r b)

read_values-Short :
    (n : ℕ) (r : List ℕ) (vs : List (List ℕ)) (rest : List ℕ)
    → All IsByte r
    → read_values n r ≡ ok (vs, rest)
    → All Short vs × (length vs ≡ n) × All IsByte rest
unfolding read_values
read_values-Short zero r vs rest b h =
    let e = ok-injective h in rw (← ap (λ p. p.0) e, ← ap (λ p. p.1) e) (tt, refl, b)
read_values-Short (suc n) r vs rest b h =
    let ((v, r'), e, h₁) = >>=-eq-ok (read_string r) _ h in
    let ((vs', r''), e', h₂) = >>=-eq-ok (read_values n r') _ h₁ in
    let (short, b') = read_string-Short r v r' b e in
    let (shorts, len, b'') = read_values-Short n r' vs' r'' b' e' in
    let q = ok-injective h₂ in
    rw (← ap (λ p. p.0) q, ← ap (λ p. p.1) q) ((short, shorts), ap suc len, b'')

-- What holds of the headers that were read so far.
record Accepted (hs : Headers) : Type 0 where
  is_map : IsMap hs
  few_values : FewValues hs
  short : All ShortField hs

read_fields-Accepted :
    (n : ℕ) (m : Headers) (r : List ℕ) (hs : Headers) (rest : List ℕ)
    → All IsByte r
    → Accepted m
    → read_fields n m r ≡ ok (hs, rest)
    → Accepted hs × (length hs ≤ length m + n) × All IsByte rest
unfolding read_fields
read_fields-Accepted zero m r hs rest b a h =
    let e = ok-injective h in rw (← ap (λ p. p.0) e, ← ap (λ p. p.1) e) (a, omega arith, b)
read_fields-Accepted (suc n) m r hs rest b a h =
    let ((k, r₁), e₁, h₁) = >>=-eq-ok (read_string r) _ h in
    let (short, b₁) = read_string-Short r k r₁ b e₁ in
    let ((count, r₂), e₂, h₂) = >>=-eq-ok (read_uint 4 r₁) _ h₁ in
    let b₂ = read_uint_bytes 4 count r₁ r₂ b₁ e₂ in
    let (_, few, h₃) =
      >>=-eq-ok (refuse_if (ltb max_values_per_header count) too_many_values) _ h₂ in
    let ((vs, r₄), e₄, h₄) = >>=-eq-ok (read_values count r₂) _ h₃ in
    let (shorts, len, b₄) = read_values-Short count r₂ vs r₄ b₂ e₄ in
    let small : length vs ≤ max_values_per_header = ground arith in
    let a' : Accepted (insert k vs m) = record {
      is_map = insert-IsMap k vs m a.is_map;
      few_values = All-insert (λ f. length f.1 ≤ max_values_per_header) k vs m small a.few_values;
      short = All-insert ShortField k vs m (short, shorts) a.short;
    } in
    let (acc, le, bytes) = read_fields-Accepted n (insert k vs m) r₄ hs rest b₄ a' h₄ in
    (acc, omega (arith, length-insert-le k vs m), bytes)

read_headers_accepted :
    (r : List ℕ) (hs : Headers) (rest : List ℕ)
    → All IsByte r
    → read_headers r ≡ ok (hs, rest)
    → IsReadable hs × All ShortField hs × All IsByte rest
unfolding read_headers
read_headers_accepted r hs rest b h =
    let ((count, r₁), e₁, h₁) = >>=-eq-ok (read_uint 4 r) _ h in
    let (_, few, h₂) = >>=-eq-ok (refuse_if (ltb max_headers count) too_many_headers) _ h₁ in
    let (_, fit, h₃) =
      >>=-eq-ok (refuse_if (ltb (length r₁) (count * 2)) headers_do_not_fit) _ h₂ in
    let (acc, le, bytes) =
      read_fields-Accepted count [] r₁ hs rest (read_uint_bytes 4 count r r₁ b e₁)
        (record { is_map = tt; few_values = tt; short = tt }) h₃ in
    let small : count ≤ max_headers = ground arith in
    (
      record { is_map = acc.is_map; few = omega arith; few_values = acc.few_values },
      acc.short,
      bytes,
    )

read_body_fits :
    (r body : List ℕ) (streamed : Bool) → read_body r ≡ ok (body, streamed) → BodyFits streamed body
unfolding read_body read_uint
read_body_fits r body true h = ground arith
read_body_fits r body false h = ground (arith, length-take (get_be 0 (take 4 r)) (drop 4 r))

-- Whatever bytes decode to a request, it is a sendable one: its strings are at most 65535 bytes,
-- its headers are a map of at most 256 keys with at most 64 values each, an inline body is at most
-- 32 MB and a streamed one is empty.
pub decode_http_request-IsSendable :
    (input : List ℕ) (req : HttpRequest)
    → All IsByte input
    → decode_http_request input ≡ ok req
    → IsSendable req
unfolding decode_http_request
decode_http_request-IsSendable input req b h =
    let ((method, r₁), e₁, h₁) = >>=-eq-ok (read_string input) _ h in
    let (short₁, b₁) = read_string-Short input method r₁ b e₁ in
    let ((path, r₂), e₂, h₂) = >>=-eq-ok (read_string r₁) _ h₁ in
    let (short₂, b₂) = read_string-Short r₁ path r₂ b₁ e₂ in
    let ((hs, r₃), e₃, h₃) = >>=-eq-ok (read_headers r₂) _ h₂ in
    let (readable, shorts, b₃) = read_headers_accepted r₂ hs r₃ b₂ e₃ in
    let ((body, streamed), e₄, h₄) = >>=-eq-ok (read_body r₃) _ h₃ in
    rw (← ok-injective h₄) (record {
      method = short₁;
      path = short₂;
      fields = shorts;
      readable = readable;
      body = read_body_fits r₃ body streamed e₄;
    })

-- Whatever bytes decode to a response, it is a sendable one: a status code of 16 bits, headers that
-- are a map of at most 256 keys with at most 64 values each and strings of at most 65535 bytes, an
-- inline body of at most 32 MB, and no body where it is streamed.
pub decode_http_response-IsSendableResponse :
    (input : List ℕ) (resp : HttpResponse)
    → All IsByte input
    → decode_http_response input ≡ ok resp
    → IsSendableResponse resp
unfolding decode_http_response
decode_http_response-IsSendableResponse input resp b h =
    let ((status, r₁), e₁, h₁) = >>=-eq-ok (read_uint 2 input) _ h in
    let (long, value, _) = read_uint_takes 2 status input r₁ e₁ in
    let ((hs, r₂), e₂, h₂) = >>=-eq-ok (read_headers r₁) _ h₁ in
    let (readable, shorts, b₂) =
      read_headers_accepted r₁ hs r₂ (read_uint_bytes 2 status input r₁ b e₁) e₂ in
    let ((body, streamed), e₃, h₃) = >>=-eq-ok (read_body r₂) _ h₂ in
    let small : get_be 0 (take 2 input) < 2 ^ 16 =
      get_be-lt 2 (take 2 input) (omega (arith, length-take 2 input)) (All-take IsByte 2 input b) in
    rw (← ok-injective h₃) (record {
      status = omega (arith, value);
      fields = shorts;
      readable = readable;
      body = read_body_fits r₂ body streamed e₃;
    })

-- ===== src/Protocol/Register/RoundTrip.antt =====
-- The registration payloads, encoded and decoded.
use vlgr.Prelude.{
  ℕ, ◌+◌, ◌≤◌, ◌<◌, ◌≡◌, refl, ◌^◌, List, [], ◌∷◌, ◌++◌, arith, length, length-append, take, get_or,
  take-append, get_or-append, drop-append, take_all, le→ltb, lt→ltb,
}
use vlgr.Prelude.Outcome.{ok}
use vlgr.Prelude.Bytes.{put_be, get_be, length-put_be, get_be-put_be}
use vlgr.Protocol.{max_subdomain_len}
use vlgr.Protocol.Register.{
  encode_register, decode_register, encode_register_ok, decode_register_ok, encode_register_tcp,
  decode_register_tcp,
}

module _ (port : ℕ) (p : port < 2 ^ 16) where
  abbrev head : List ℕ
  head = put_be 2 port

  port_part : (more : List ℕ) → get_be 0 (take 2 (head ++ more)) ≡ port
  port_part more =
      rw (take-append 2 head more (length-put_be 2 port), get_be-put_be 2 port (omega arith))

-- A port and a subdomain of at most 63 bytes, the empty one included, come back as they were.
pub decode_register-encode_register :
    (port : ℕ) (subdomain : List ℕ)
    → port < 2 ^ 16
    → length subdomain ≤ max_subdomain_len
    → (b : List ℕ) × (encode_register port subdomain ≡ ok b)
      × (decode_register b ≡ ok (port, subdomain))
unfolding encode_register decode_register
decode_register-encode_register port [] p s = (
  put_be 2 port ++ [],
  refl,
  rw (
    le→ltb (length (put_be 2 port ++ [])) 2 (omega (arith, len)),
    lt→ltb (length (put_be 2 port ++ [])) 3 (omega (arith, len)),
    port_part port p [],
  ),
)
  where
    len : length (put_be 2 port ++ []) ≡ 2
    len = omega (arith, length-append (put_be 2 port) [], length-put_be 2 port)
decode_register-encode_register port (c ∷ cs) p s = (
  whole,
  rw (le→ltb max_subdomain_len (length (c ∷ cs)) s),
  rw (
    le→ltb (length whole) 2 (omega (arith, len)),
    le→ltb (length whole) 3 (omega (arith, len)),
    size,
    le→ltb max_subdomain_len (length (c ∷ cs)) s,
    le→ltb (length whole) (3 + length (c ∷ cs)) (omega (arith, len)),
    drop-append 3 1 (put_be 2 port) rest (omega (arith, length-put_be 2 port)),
    port_part port p rest,
    take_all (length (c ∷ cs)) (c ∷ cs) (omega arith),
  ),
)
  where
    rest : List ℕ
    rest = length (c ∷ cs) ∷ c ∷ cs

    whole : List ℕ
    whole = put_be 2 port ++ rest

    len : length whole ≡ 3 + length (c ∷ cs)
    len = omega (arith, length-append (put_be 2 port) rest, length-put_be 2 port)

    size : get_or whole 2 0 ≡ length (c ∷ cs)
    size = get_or-append 2 0 (put_be 2 port) rest 0 (omega (arith, length-put_be 2 port))

-- A URL of at most 255 bytes and a 64-bit tunnel id come back as they were.
pub decode_register_ok-encode_register_ok :
    (url : List ℕ) (tunnel_id : ℕ)
    → length url ≤ 255
    → tunnel_id < 2 ^ 64
    → (b : List ℕ) × (encode_register_ok url tunnel_id ≡ ok b)
      × (decode_register_ok b ≡ ok (url, tunnel_id))
unfolding encode_register_ok decode_register_ok
decode_register_ok-encode_register_ok url id u t = (
  length url ∷ rest,
  rw (le→ltb 255 (length url) u),
  rw (
    le→ltb (1 + length rest) (1 + length url + 8) (omega (arith, len)),
    take-append (length url) url (put_be 8 id) refl,
    drop-append (length url) 0 url (put_be 8 id) (omega arith),
    take_all 8 (put_be 8 id) (omega (arith, length-put_be 8 id)),
    get_be-put_be 8 id t,
  ),
)
  where
    rest : List ℕ
    rest = url ++ put_be 8 id

    len : length rest ≡ length url + 8
    len = omega (arith, length-append url (put_be 8 id), length-put_be 8 id)

-- The two ports of a TCP registration come back as they were.
pub decode_register_tcp-encode_register_tcp :
    (local_port remote_port : ℕ)
    → local_port < 2 ^ 16
    → remote_port < 2 ^ 16
    → decode_register_tcp (encode_register_tcp local_port remote_port)
      ≡ ok (local_port, remote_port)
unfolding encode_register_tcp decode_register_tcp
decode_register_tcp-encode_register_tcp l r p q = rw (
  le→ltb (length (put_be 2 l ++ put_be 2 r)) 4 (omega (arith, len)),
  port_part l p (put_be 2 r),
  drop-append 2 0 (put_be 2 l) (put_be 2 r) (omega (arith, length-put_be 2 l)),
  take_all 2 (put_be 2 r) (omega (arith, length-put_be 2 r)),
  get_be-put_be 2 r q,
)
  where
    len : length (put_be 2 l ++ put_be 2 r) ≡ 4
    len =
        omega (arith, length-append (put_be 2 l) (put_be 2 r), length-put_be 2 l, length-put_be 2 r)

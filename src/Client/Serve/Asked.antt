-- ===== src/Client/Serve/Asked.antt =====
-- What the local service is asked: copyHeaders and the http.Request that is made of an HTTPRequest.
use vlgr.Prelude.{
  ℕ, ◌≡◌, refl, ◌∙◌, Bool, true, false, ◌||◌, List, [], ◌∷◌, ◌++◌, Option, none, some, arith,
  Bool-cases, inl, inr, bytes_eq, bytes_eq→eq, if◌then◌else◌,
}
use vlgr.Prelude.Bytes.{codes}
use vlgr.Protocol.{Headers, HttpRequest}
use vlgr.Client.Serve.{Texts, LocalRequest, pairs, copied_headers, copied_host, local_request}

-- The values of a key, over all its entries.
abbrev pub all_values : List ℕ → Headers → List (List ℕ)
all_values key [] = []
all_values key ((k, vs) ∷ h) =
    let rest = all_values key h in if bytes_eq k key then vs ++ rest else rest

abbrev pub added_values : List ℕ → List (List ℕ × List ℕ) → List (List ℕ)
added_values key [] = []
added_values key ((k, v) ∷ ps) =
    let rest = added_values key ps in if bytes_eq k key then v ∷ rest else rest

abbrev pub first : List (List ℕ) → Option (List ℕ)
first [] = none
first (v ∷ vs) = some v

-- The headers that http.Request has in other fields.
abbrev pub is_left_out : List ℕ → Bool
is_left_out key =
    bytes_eq key (codes "Content-Length")
    || bytes_eq key (codes "Transfer-Encoding")
    || bytes_eq key (codes "Host")

-- What is asked is what was sent: method, path, body, the first Host, and the values of every header
-- that is not left out, in order.
pub record IsFaithful (port : ℕ) (req : HttpRequest) (r : LocalRequest) : Type 0 where
  pub port_same : r.port ≡ port
  pub method_same : r.method ≡ req.method
  pub path_same : r.path ≡ req.path
  pub body_same : r.body ≡ req.body
  pub streamed_same : r.body_streamed ≡ req.body_streamed
  pub host_same : r.host ≡ first (all_values (codes "Host") req.headers)
  pub values_same :
      (key : List ℕ)
      → is_left_out key ≡ false
      → added_values key r.headers ≡ all_values key req.headers

added_values-append :
    (key : List ℕ) (ps qs : List (List ℕ × List ℕ))
    → added_values key (ps ++ qs) ≡ added_values key ps ++ added_values key qs
added_values-append key [] qs = refl
added_values-append key ((k, v) ∷ ps) qs = ground (arith, added_values-append key ps qs)

added_values-pairs :
    (key k : List ℕ) (vs : List (List ℕ))
    → added_values key (pairs k vs) ≡ (if bytes_eq k key then vs else [])
added_values-pairs key k [] = ground arith
added_values-pairs key k (v ∷ vs) = ground (arith, added_values-pairs key k vs)

-- A key that is left out is no other.
left_out-other :
    (k key : List ℕ) → is_left_out k ≡ true → is_left_out key ≡ false → bytes_eq k key ≡ false
left_out-other k key out kept = elim (Bool-cases (bytes_eq k key)) [
  | inr e ↦ e
  | inl e ↦ absurd (cc (out, kept, bytes_eq→eq k key e))
]

added_values-copied_headers :
    (key : List ℕ) (h : Headers)
    → is_left_out key ≡ false
    → added_values key (copied_headers h) ≡ all_values key h
unfolding copied_headers
added_values-copied_headers key [] kept = refl
added_values-copied_headers key ((k, vs) ∷ h) kept = elim (Bool-cases (is_left_out k)) [
  | inl e ↦
      rw (e, copied_headers)
        (rw (left_out-other k key e kept) (added_values-copied_headers key h kept))
  | inr e ↦
      rw (e, copied_headers)
        (added_values-append key (pairs k vs) (copied_headers h)
          ∙ rw (added_values-pairs key k vs, added_values-copied_headers key h kept) (ground arith))
]

copied_host-first : (h : Headers) → copied_host h ≡ first (all_values (codes "Host") h)
unfolding copied_host
copied_host-first [] = refl
copied_host-first ((k, []) ∷ h) = ground (arith, copied_host-first h)
copied_host-first ((k, v ∷ vs) ∷ h) = ground (arith, copied_host-first h)

pub local_request-IsFaithful :
    (texts : Texts) (port : ℕ) (req : HttpRequest)
    → IsFaithful port req (local_request texts port req)
unfolding local_request
local_request-IsFaithful texts port req = record {
  port_same = refl;
  method_same = refl;
  path_same = refl;
  body_same = refl;
  streamed_same = refl;
  host_same = copied_host-first req.headers;
  values_same = λ key kept. added_values-copied_headers key req.headers kept;
}

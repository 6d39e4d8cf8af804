-- ===== src/Server/Proxy/Serving/Injected.antt =====
-- The headers that the local service gets.
use vlgr.Prelude.{
  ℕ, ◌≡◌, refl, ◌∙◌, Bool, true, false, ◌||◌, List, [], ◌∷◌, ◌++◌, Option, none, some, arith, ap,
  List-cases, inl, inr, bytes_eq, if◌then◌else◌,
}
use vlgr.Prelude.Assoc.{bytes_key, lookup, insert, lookup-insert, same_refl}
use vlgr.Prelude.Bytes.{codes}
use vlgr.Protocol.{Headers}
use vlgr.Server.Proxy.Serving.{
  InRequest, or_empty, header_values, with_proto, with_peer, forwarded_headers,
}

abbrev pub is_added : List ℕ → Bool
is_added key =
    bytes_eq (codes "Host") key
    || bytes_eq (codes "X-Forwarded-Host") key
    || bytes_eq (codes "X-Forwarded-Proto") key
    || bytes_eq (codes "X-Forwarded-For") key

header_values-same :
    (key : List ℕ) (h h' : Headers)
    → lookup key h ≡ lookup key h'
    → header_values key h ≡ header_values key h'
header_values-same key h h' e = ap or_empty e

-- A header that is set while others are.
lookup-with_proto :
    (has_tls : Bool) (h : Headers) (key : List ℕ)
    → bytes_eq (codes "X-Forwarded-Proto") key ≡ false
    → lookup key (with_proto has_tls h) ≡ lookup key h
unfolding with_proto
lookup-with_proto has_tls h key other =
    elim (List-cases (header_values (codes "X-Forwarded-Proto") h)) [
      | inl e ↦
          rw (e, with_proto) (lookup-insert (codes "X-Forwarded-Proto") key _ h ∙ rw other refl)
      | inr (v, vs, e) ↦ rw (e, with_proto) refl
    ]

lookup-with_peer :
    (peer : Option (List ℕ)) (key : List ℕ) (h : Headers)
    → bytes_eq (codes "X-Forwarded-For") key ≡ false
    → lookup key (with_peer peer h) ≡ lookup key h
unfolding with_peer
lookup-with_peer none key h other = refl
lookup-with_peer (some peer) key h other =
    lookup-insert (codes "X-Forwarded-For") key _ h ∙ rw other refl

header_values-insert :
    (key : List ℕ) (vs : List (List ℕ)) (h : Headers) → header_values key (insert key vs h) ≡ vs
header_values-insert key vs h = ap or_empty (lookup-insert key key vs h) ∙ rw (same_refl key) refl

-- The protocol that is told: the one that came, and else that of the connection.
abbrev pub or_scheme : Bool → List (List ℕ) → List (List ℕ)
or_scheme true [] = codes "https" ∷ []
or_scheme false [] = codes "http" ∷ []
or_scheme has_tls (v ∷ vs) = v ∷ vs

header_values-with_proto :
    (has_tls : Bool) (h : Headers)
    → header_values (codes "X-Forwarded-Proto") (with_proto has_tls h)
      ≡ or_scheme has_tls (header_values (codes "X-Forwarded-Proto") h)
unfolding with_proto
header_values-with_proto has_tls h =
    elim (List-cases (header_values (codes "X-Forwarded-Proto") h)) [
      | inl e ↦
          rw (e, with_proto) (header_values-insert (codes "X-Forwarded-Proto") _ h ∙ scheme has_tls)
      | inr (v, vs, e) ↦ rw (e, with_proto) (e ∙ given has_tls v vs)
    ]
  where
    scheme : (b : Bool) → (if b then codes "https" else codes "http") ∷ [] ≡ or_scheme b []
    scheme true = refl
    scheme false = refl

    given : (b : Bool) (v : List ℕ) (vs : List (List ℕ)) → v ∷ vs ≡ or_scheme b (v ∷ vs)
    given true v vs = refl
    given false v vs = refl

-- The addresses that are told: those that came, and the peer's where it is known.
abbrev pub with_address : Option (List ℕ) → List (List ℕ) → List (List ℕ)
with_address none vs = vs
with_address (some peer) vs = vs ++ peer ∷ []

header_values-with_peer :
    (peer : Option (List ℕ)) (h : Headers)
    → header_values (codes "X-Forwarded-For") (with_peer peer h)
      ≡ with_address peer (header_values (codes "X-Forwarded-For") h)
unfolding with_peer
header_values-with_peer none h = refl
header_values-with_peer (some peer) h = header_values-insert (codes "X-Forwarded-For") _ h

-- The headers below the protocol and the peer.
abbrev with_hosts : InRequest → Headers
with_hosts r =
    insert (codes "X-Forwarded-Host") (r.host ∷ []) (insert (codes "Host") (r.host ∷ []) r.header)

lookup-with_hosts :
    (r : InRequest) (key : List ℕ)
    → lookup key (with_hosts r) ≡ (
        if bytes_eq (codes "X-Forwarded-Host") key
        then some (r.host ∷ [])
        else if bytes_eq (codes "Host") key
        then some (r.host ∷ [])
        else lookup key r.header)
lookup-with_hosts r key =
    lookup-insert (codes "X-Forwarded-Host") key (r.host ∷ []) _
    ∙ rw (lookup-insert (codes "Host") key (r.host ∷ []) r.header) refl

-- The four names are different.
record Names : Type 0 where
  for_proto : bytes_eq (codes "X-Forwarded-For") (codes "X-Forwarded-Proto") ≡ false
  xhost_proto : bytes_eq (codes "X-Forwarded-Host") (codes "X-Forwarded-Proto") ≡ false
  host_proto : bytes_eq (codes "Host") (codes "X-Forwarded-Proto") ≡ false
  xhost : bytes_eq (codes "X-Forwarded-Host") (codes "X-Forwarded-Host") ≡ true
  host : bytes_eq (codes "Host") (codes "Host") ≡ true
  for_host : bytes_eq (codes "X-Forwarded-For") (codes "Host") ≡ false
  for_xhost : bytes_eq (codes "X-Forwarded-For") (codes "X-Forwarded-Host") ≡ false
  proto_host : bytes_eq (codes "X-Forwarded-Proto") (codes "Host") ≡ false
  proto_xhost : bytes_eq (codes "X-Forwarded-Proto") (codes "X-Forwarded-Host") ≡ false
  proto_for : bytes_eq (codes "X-Forwarded-Proto") (codes "X-Forwarded-For") ≡ false
  xhost_host : bytes_eq (codes "X-Forwarded-Host") (codes "Host") ≡ false
  xhost_for : bytes_eq (codes "X-Forwarded-Host") (codes "X-Forwarded-For") ≡ false
  host_for : bytes_eq (codes "Host") (codes "X-Forwarded-For") ≡ false

names_differ : Names
unfolding bytes_eq
names_differ = record {
  for_proto = refl;
  xhost_proto = refl;
  host_proto = refl;
  xhost = refl;
  host = refl;
  for_host = refl;
  for_xhost = refl;
  proto_host = refl;
  proto_xhost = refl;
  proto_for = refl;
  xhost_host = refl;
  xhost_for = refl;
  host_for = refl;
}

-- What the local service is told of a public request, whether or not the address of its peer can be
-- read: its Host under both names; the protocol that X-Forwarded-Proto came with, and else that of the
-- connection; the addresses that X-Forwarded-For came with and behind them the peer's; and every
-- header that has none of the four names as it came.
pub lookup-forwarded_headers :
    (r : InRequest) (peer : Option (List ℕ)) (key : List ℕ)
    → is_added key ≡ false
    → (lookup (codes "Host") (forwarded_headers r peer) ≡ some (r.host ∷ []))
      × (lookup (codes "X-Forwarded-Host") (forwarded_headers r peer) ≡ some (r.host ∷ []))
      × (header_values (codes "X-Forwarded-Proto") (forwarded_headers r peer)
          ≡ or_scheme r.has_tls (header_values (codes "X-Forwarded-Proto") r.header))
      × (header_values (codes "X-Forwarded-For") (forwarded_headers r peer)
          ≡ with_address peer (header_values (codes "X-Forwarded-For") r.header))
      × (lookup key (forwarded_headers r peer) ≡ lookup key r.header)
unfolding forwarded_headers
lookup-forwarded_headers r peer key other =
    let names = names_differ in
    let lookup-under = λ (k : List ℕ). λ (other : bytes_eq (codes "X-Forwarded-Proto") k ≡ false).
      lookup-with_proto r.has_tls (with_hosts r) k other ∙ lookup-with_hosts r k in
    let under : Headers = with_proto r.has_tls (with_hosts r) in
    let proto : header_values (codes "X-Forwarded-Proto") (with_hosts r)
        ≡ header_values (codes "X-Forwarded-Proto") r.header =
      header_values-same (codes "X-Forwarded-Proto") (with_hosts r) r.header (
        lookup-with_hosts r (codes "X-Forwarded-Proto")
        ∙ rw (names.xhost_proto, names.host_proto) refl) in
    let before : header_values (codes "X-Forwarded-For") under
        ≡ header_values (codes "X-Forwarded-For") r.header =
      header_values-same (codes "X-Forwarded-For") under r.header (
        lookup-under (codes "X-Forwarded-For") names.proto_for
        ∙ rw (names.xhost_for, names.host_for) refl) in
    let not_xhost : bytes_eq (codes "X-Forwarded-Host") key ≡ false = ground (arith, other) in
    let not_host : bytes_eq (codes "Host") key ≡ false = ground (arith, other) in
    (
      lookup-with_peer peer (codes "Host") under names.for_host
          ∙ lookup-under (codes "Host") names.proto_host
          ∙ rw (names.xhost_host, names.host) refl,
      lookup-with_peer peer (codes "X-Forwarded-Host") under names.for_xhost
          ∙ lookup-under (codes "X-Forwarded-Host") names.proto_xhost
          ∙ rw names.xhost refl,
      header_values-same (codes "X-Forwarded-Proto") (with_peer peer under) under
            (lookup-with_peer peer (codes "X-Forwarded-Proto") under names.for_proto)
          ∙ header_values-with_proto r.has_tls (with_hosts r)
          ∙ ap (or_scheme r.has_tls) proto,
      header_values-with_peer peer under ∙ ap (with_address peer) before,
      lookup-with_peer peer key under (ground (arith, other))
          ∙ lookup-under key (ground (arith, other))
          ∙ rw (not_xhost, not_host) refl,
    )

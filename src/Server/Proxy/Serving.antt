-- ===== src/Server/Proxy/Serving.antt =====
-- internal/server/proxy.go: ServeHTTP up to the forwarding, and the response that is written.
-- net/http reads the request: `InRequest` is what the code looks at, its header under canonical
-- names. `canonical` is the name that http.Header.Add files a value under.
pub mod Injected
pub mod Defaults
pub mod Recognised
use vlgr.Prelude.{
  ℕ, ◌+◌, Bool, true, false, not, ◌||◌, List, [], ◌∷◌, ◌++◌, Option, none, some, length, take, ltb,
  bytes_eq, if◌then◌else◌,
}
use vlgr.Prelude.Assoc.{bytes_key, lookup, insert}
use vlgr.Prelude.Bytes.{codes}
use vlgr.Protocol.{Headers, HttpRequest, HttpResponse, inline_body_limit}
use vlgr.Protocol.Upgrade.{is_websocket_upgrade}
use vlgr.Server.Protect.{Net, Request, Protector, Verdict, allowed, forbidden, unauthorized, allow}
use vlgr.Server.Proxy.{copy_valid_headers}
use vlgr.Server.Registry.{Tunnel, Registry, get}
use vlgr.Server.Subdomain.{extract_subdomain}

pub record InRequest : Type 0 where
  pub method : List ℕ
  pub host : List ℕ
  pub escaped_path : List ℕ
  pub raw_query : List ℕ
  pub header : Headers
  pub basic : Option (List ℕ × List ℕ)
  pub remote_addr : List ℕ
  pub has_tls : Bool
  pub body : List ℕ
  pub body_breaks : Bool

abbrev pub or_empty : Option (List (List ℕ)) → List (List ℕ)
or_empty none = []
or_empty (some vs) = vs

abbrev pub first_or_empty : List (List ℕ) → List ℕ
first_or_empty [] = []
first_or_empty (v ∷ vs) = v

abbrev pub header_values : List ℕ → Headers → List (List ℕ)
header_values key h = or_empty (lookup key h)

unfoldable pub with_proto : Bool → Headers → Headers
unfolding lookup insert
with_proto has_tls h = elim (header_values (codes "X-Forwarded-Proto") h) [
  | [] ↦
      insert (codes "X-Forwarded-Proto") ((if has_tls then codes "https" else codes "http") ∷ []) h
  | v ∷ vs ↦ h
]

unfoldable pub with_peer : Option (List ℕ) → Headers → Headers
unfolding lookup insert
with_peer none h = h
with_peer (some peer) h =
    insert (codes "X-Forwarded-For") (header_values (codes "X-Forwarded-For") h ++ peer ∷ []) h

-- The headers that ServeHTTP sends on; `peer` is what net.SplitHostPort makes of the remote address.
unfoldable pub forwarded_headers : InRequest → Option (List ℕ) → Headers
unfolding with_proto with_peer insert
forwarded_headers r peer = with_peer peer (
    with_proto r.has_tls (
      insert (codes "X-Forwarded-Host") (r.host ∷ [])
        (insert (codes "Host") (r.host ∷ []) r.header)))

unfoldable pub request_path : InRequest → List ℕ
unfolding bytes_eq
request_path r =
    if bytes_eq r.raw_query [] then r.escaped_path else r.escaped_path ++ (codes "?" ++ r.raw_query)

-- What ServeHTTP does: an answer with a status, or the request goes into the tunnel. `prefix` is what
-- was read of a body that is streamed.
pub data Routed : Type 0 where
  answers : ℕ → Routed
  forwards : Tunnel → HttpRequest → List ℕ → Routed
  upgrades : Tunnel → HttpRequest → Routed

abbrev forwarded_request : InRequest → Option (List ℕ) → List ℕ → HttpRequest
forwarded_request r peer body =
    let streamed = ltb inline_body_limit (length body) in
    record {
      method = r.method;
      path = request_path r;
      headers = forwarded_headers r peer;
      body = if streamed then [] else body;
      body_streamed = streamed;
    }

module _ (net : Net) where
  abbrev protect_request : InRequest → Request
  protect_request r = record {
    remote_addr = r.remote_addr;
    forwarded_for = header_values (codes "X-Forwarded-For") r.header;
    basic = r.basic;
  }

  -- The part of ServeHTTP behind the protector.
  unfoldable pub route : Tunnel → InRequest → Routed
  unfolding is_websocket_upgrade request_path forwarded_headers
  route tunnel r =
      let body = take (inline_body_limit + 1) r.body in
      let req = forwarded_request r (net.split_host_port r.remote_addr) body in
      if r.body_breaks
      then answers 400
      else if is_websocket_upgrade r.header
      then upgrades tunnel req
      else forwards tunnel req body

  unfoldable pub serve_http : Registry → List ℕ → Option (Protector net) → InRequest → Routed
  unfolding extract_subdomain get allow route bytes_eq lookup
  serve_http registry base_domain protect r =
      let subdomain = extract_subdomain r.host base_domain in
      if bytes_eq subdomain [] then answers 400 else elim (get registry subdomain) [
        | none ↦ answers 404
        | some tunnel ↦ elim (allow net protect (protect_request r)) [
          | forbidden ↦ answers 403
          | unauthorized ↦ answers 401
          | allowed ↦ route tunnel r
        ]
      ]

-- http.Header.Get of a canonical name
unfoldable pub header_get : List ℕ → Headers → List ℕ
unfolding lookup
header_get key h = first_or_empty (header_values key h)

unfoldable pub set_default : List ℕ → List ℕ → Headers → Headers
unfolding header_get bytes_eq insert
set_default key value h = if bytes_eq (header_get key h) [] then insert key (value ∷ []) h else h

unfoldable pub set_security_defaults : Headers → Headers
unfolding set_default
set_security_defaults h =
    set_default (codes "X-Frame-Options") (codes "DENY")
      (set_default (codes "X-Content-Type-Options") (codes "nosniff") h)

unfoldable pub header_add : (List ℕ → List ℕ) → Headers → List ℕ → List ℕ → Headers
unfolding lookup insert
header_add canonical h key value =
    insert (canonical key) (header_values (canonical key) h ++ value ∷ []) h

pub record Written : Type 0 where
  pub header : Headers
  pub status : ℕ
  pub body : List ℕ

unfoldable pub write_normal_response : (List ℕ → List ℕ) → HttpResponse → Written
unfolding copy_valid_headers header_add set_security_defaults
write_normal_response canonical resp = record {
  header = set_security_defaults (copy_valid_headers (header_add canonical) [] resp.headers);
  status = resp.status_code;
  body = resp.body;
}

-- streamResponse: what is written, the chunks that come before the end or before a write fails.
unfoldable pub relayed : List (List ℕ × Bool) → List ℕ
relayed [] = []
relayed ((data_, writes) ∷ rest) = let more = relayed rest in if writes then data_ ++ more else []

unfoldable pub stream_response : (List ℕ → List ℕ) → HttpResponse → List (List ℕ × Bool) → Written
unfolding copy_valid_headers header_add set_security_defaults relayed
stream_response canonical resp chunks = record {
  header = set_security_defaults (copy_valid_headers (header_add canonical) [] resp.headers);
  status = resp.status_code;
  body = relayed chunks;
}

-- ===== src/Client/Dashboard.antt =====
-- internal/client/dashboard.go: the inspector of the client.
-- Times and durations are numbers, and an `int` that only counts up is a number without a bound.
-- net.SplitHostPort, net.ParseIP with IsLoopback, and url.Parse are parameters, `Net`. A subscriber is
-- the number of its channel with the entries that the channel holds.
pub mod Ring
pub mod Guard
use vlgr.Prelude.{
  ℕ, zero, suc, ◌+◌, ◌-◌, ◌*◌, ◌^◌, Bool, true, false, not, ◌&&◌, ◌||◌, List, [], ◌∷◌, ◌++◌, Option,
  none, some, length, take, drop, ltb, ◌==◌, bytes_eq, if◌then◌else◌,
}
use vlgr.Prelude.Bytes.{codes}
use vlgr.Prelude.Int.{ℤ, pos, negsuc}
use vlgr.Prelude.Outcome.{Outcome, ok, err}
use vlgr.Protocol.{Headers}
use vlgr.Client.Serve.{first_header, copied_headers, copied_host, LocalResponse}

abbrev pub dash_body_cap : ℕ
dash_body_cap = 128 * 2 ^ 10

abbrev pub default_inspect_limit : ℕ
default_inspect_limit = 1000

abbrev pub max_inspect_limit : ℕ
max_inspect_limit = 100000

abbrev pub subscriber_buf : ℕ
subscriber_buf = 16

pub record ReqEntry : Type 0 where
  pub id : ℕ
  pub time : ℕ
  pub method : List ℕ
  pub path : List ℕ
  pub host : List ℕ
  pub local_port : ℕ
  pub status : ℕ
  pub duration : ℕ
  pub req_headers : Headers
  pub resp_headers : Headers
  pub req_body : List ℕ
  pub resp_body : List ℕ
  pub req_streamed : Bool
  pub replayed : Bool

pub record Dashboard : Type 0 where
  pub max_entries : ℕ
  pub entries : List ReqEntry
  pub next_id : ℕ
  pub subs : List (ℕ × List ReqEntry)

abbrev pub entry_limit : ℤ → ℕ
entry_limit (pos zero) = default_inspect_limit
entry_limit (pos (suc n)) = suc n
entry_limit (negsuc n) = default_inspect_limit

unfoldable pub new_dashboard : ℤ → Dashboard
new_dashboard limit = record {
  max_entries =
      if ltb max_inspect_limit (entry_limit limit) then max_inspect_limit else entry_limit limit;
  entries = [];
  next_id = 0;
  subs = [];
}

-- The loop over the subscribers: one whose channel is full misses the entry.
unfoldable pub notify : ReqEntry → List (ℕ × List ReqEntry) → List (ℕ × List ReqEntry)
notify e [] = []
notify e ((ch, held) ∷ subs) =
    let rest = notify e subs in
    (if ltb (length held) subscriber_buf then (ch, held ++ e ∷ []) else (ch, held)) ∷ rest

unfoldable pub record_entry : Dashboard → ReqEntry → Dashboard
unfolding notify
record_entry d e =
    let id = d.next_id + 1 in
    let e' : ReqEntry = record e { id = id } in
    let all = d.entries ++ e' ∷ [] in
    record d {
      next_id = id;
      entries =
          if ltb d.max_entries (length all) then drop (length all - d.max_entries) all else all;
      subs = notify e' d.subs;
    }

unfoldable pub cap_body : List ℕ → List ℕ
cap_body b = if ltb dash_body_cap (length b) then take dash_body_cap b else b

unfoldable pub record_http :
    Dashboard
    → List ℕ
    → List ℕ
    → ℕ
    → Headers
    → List ℕ
    → Bool
    → ℕ
    → Headers
    → List ℕ
    → ℕ
    → ℕ
    → Dashboard
unfolding record_entry cap_body first_header
record_http d method path local_port req_headers req_body req_streamed status resp_headers resp_body
      started duration =
    record_entry d (record {
      id = 0;
      time = started;
      method = method;
      path = path;
      host = first_header req_headers (codes "Host");
      local_port = local_port;
      status = status;
      duration = duration;
      req_headers = req_headers;
      resp_headers = resp_headers;
      req_body = cap_body req_body;
      resp_body = cap_body resp_body;
      req_streamed = req_streamed;
      replayed = false;
    })

unfoldable pub find_entry : ℕ → List ReqEntry → Option ReqEntry
find_entry id [] = none
find_entry id (e ∷ es) = let rest = find_entry id es in if e.id == id then some e else rest

unfoldable pub find : Dashboard → ℕ → Option ReqEntry
unfolding find_entry
find d id = find_entry id d.entries

-- toJSON: the fields that are left empty, and omitted, unless the entry is shown in full.
unfoldable pub to_json : ReqEntry → Bool → ReqEntry
to_json e full =
    if full
    then e
    else record e { req_headers = []; resp_headers = []; req_body = []; resp_body = [] }

unfoldable pub list_entries : List ReqEntry → List ReqEntry
unfolding to_json
list_entries [] = []
list_entries (e ∷ es) = list_entries es ++ to_json e false ∷ []

-- The loop of handleList, which runs from the end.
unfoldable pub handle_list : Dashboard → List ReqEntry
unfolding list_entries
handle_list d = list_entries d.entries

pub record Net : Type 0 where
  pub split_host_port : List ℕ → Option (List ℕ)
  pub is_loopback_ip : List ℕ → Bool
  pub url_host : List ℕ → Option (List ℕ)

unfoldable pub peer_is_loopback : Net → List ℕ → Bool
peer_is_loopback net remote_addr =
    net.is_loopback_ip (elim (net.split_host_port remote_addr) [ none ↦ remote_addr | some h ↦ h ])

unfoldable pub host_is_loopback : Net → List ℕ → Bool
unfolding bytes_eq
host_is_loopback net host =
    let h : List ℕ = elim (net.split_host_port host) [ none ↦ host | some h ↦ h ] in
    bytes_eq h (codes "localhost") || net.is_loopback_ip h

unfoldable pub origin_host_matches : Net → List ℕ → List ℕ → Bool
unfolding bytes_eq
origin_host_matches net origin host = elim (net.url_host origin) [
  | none ↦ false
  | some h ↦ bytes_eq h host
]

pub record Call : Type 0 where
  pub remote_addr : List ℕ
  pub host : List ℕ
  pub method : List ℕ
  pub origin : List ℕ

-- `local`: whether the handler is called.
unfoldable pub local : Net → Call → Bool
unfolding peer_is_loopback host_is_loopback origin_host_matches bytes_eq
local net r =
    if not (peer_is_loopback net r.remote_addr) || not (host_is_loopback net r.host)
    then false
    else if not (bytes_eq r.method (codes "GET")) && not (bytes_eq r.method (codes "HEAD"))
    then bytes_eq r.origin [] || origin_host_matches net r.origin r.host
    else true

-- What a replay asks the local service for.
pub record ReplayRequest : Type 0 where
  pub port : ℕ
  pub method : List ℕ
  pub path : List ℕ
  pub host : Option (List ℕ)
  pub headers : List (List ℕ × List ℕ)
  pub body : List ℕ

-- handleReplay up to the request, with the status that it answers otherwise.
unfoldable pub begin_replay : Dashboard → ℕ → Outcome ℕ (ReqEntry × ReplayRequest)
unfolding find copied_host copied_headers
begin_replay d id = elim (find d id) [
  | none ↦ err 404
  | some e ↦
      if e.req_streamed
      then err 400
      else ok (
        e,
        record {
          port = e.local_port;
          method = e.method;
          path = e.path;
          host = copied_host e.req_headers;
          headers = copied_headers e.req_headers;
          body = e.req_body;
        },
      )
]

-- The rest of handleReplay: the entry that it records, and the status.
unfoldable pub finish_replay :
    Dashboard → ReqEntry → Outcome (List ℕ) LocalResponse → ℕ → ℕ → Dashboard × ℕ
unfolding record_entry
finish_replay d e (err msg) started duration = (d, 502)
finish_replay d e (ok resp) started duration = (
  record_entry d (record e {
    time = started;
    status = resp.status_code;
    duration = duration;
    resp_headers = resp.headers;
    resp_body = take dash_body_cap resp.body;
    req_streamed = false;
    replayed = true;
  }),
  204,
)

abbrev har_pairs : List ℕ → List (List ℕ) → List (List ℕ × List ℕ)
har_pairs k [] = []
har_pairs k (v ∷ vs) = (k, v) ∷ har_pairs k vs

unfoldable pub har_headers : Headers → List (List ℕ × List ℕ)
har_headers [] = []
har_headers ((k, vs) ∷ h) = har_pairs k vs ++ har_headers h

-- `describe_port` writes a port in decimal.
unfoldable pub entry_url : (ℕ → List ℕ) → ReqEntry → List ℕ
unfolding bytes_eq
entry_url describe_port e =
    let host =
      if bytes_eq e.host [] then codes "localhost:" ++ describe_port e.local_port else e.host in
    codes "http://" ++ (host ++ e.path)

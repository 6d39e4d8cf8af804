-- ===== src/Examples/Edges.antt =====
-- The public side, the commands and the files on disk, at concrete inputs.
use vlgr.Prelude.{
  ℕ, ◌-◌, ◌≤◌, ◌≡◌, refl, Bool, true, false, List, [], ◌∷◌, ◌++◌, map, Option, none, some, All,
  arith, drop, length, ◌==◌, ◌&&◌, bytes_eq,
}
use vlgr.Prelude.Assoc.{bytes_key, lookup}
use vlgr.Prelude.Bytes.{codes}
use vlgr.Prelude.Ids.{has_id}
use vlgr.Prelude.Int.{pos}
use vlgr.Prelude.Outcome.{ok}
use vlgr.Prelude.Text.{trim_space, contains_byte}
use vlgr.Examples.Services.{client}
use vlgr.Examples.Sessions.{world}
use vlgr.Examples.Messages.{upgrade, upgrade-IsCanonical, upgrade-IsMap}
use vlgr.Server.PortAllocator.{PortAllocator, new_port_allocator}
use vlgr.Server.PortAllocator.Invariant.{new_port_allocator-IsPool}
use vlgr.Sshtun.{BindReq, Request, handle_global_requests}
use vlgr.Sshtun.Ports.{handle_global_requests-left}
use vlgr.Sshtun.Pool.{server_pool, server_pool_laws}
use vlgr.SelfUpdate.Install as Install
use vlgr.SelfUpdate.Install.{Config, Files, check_once}
use vlgr.SelfUpdate.Install.Verified.{Round, check_once-Round}
use vlgr.Client.Dashboard as Dashboard
use vlgr.Client.Dashboard.{ReqEntry, new_dashboard, peer_is_loopback, host_is_loopback}
use vlgr.Client.Dashboard.Ring.{record_all, numbered, record_all-new_dashboard}
use vlgr.Client.Control.{Lines, list_answer, newline, query_forwards}
use vlgr.Client.Control.Listed.{IsOneLine, query_forwards-list_answer}
use vlgr.Server.Admin as Admin
use vlgr.Server.Admin.{guard, token_ok, guard-token}
use vlgr.Server.Proxy.Serving.{InRequest, header_values, forwarded_headers}
use vlgr.Server.Proxy.Serving.Injected.{is_added, or_scheme, with_address, lookup-forwarded_headers}
use vlgr.Server.Proxy.Serving.Recognised.{is_websocket_upgrade_req-forwarded_headers}
use vlgr.Protocol.Upgrade.{is_websocket_upgrade, is_websocket_upgrade_req}
use vlgr.Server.Passthrough.{Read, relay_public_conn}
use vlgr.Server.Passthrough.Carried.{stream_bytes, whole, relay_public_conn-bytes}
use vlgr.Protocol.{HttpResponse}
use vlgr.Server.Upgraded.{serve_web_socket}
use vlgr.Server.Upgraded.Relayed.{up_to_failure, if_switched, serve_web_socket-bytes}
use vlgr.Commands.Reconnect.{Attempt, fails, ran, signalled, run_loop}
use vlgr.Commands.Reconnect.Paced.{schedule, waited, in_turn, run_loop-schedule}

abbrev pool : PortAllocator
pool = new_port_allocator 10 12

abbrev unmarshal : List ℕ → Option BindReq
unmarshal payload = some (record { addr = []; port = 11 })

-- The process listens on port 12 already.
abbrev listens : ℕ → Bool
listens p = p == 11

abbrev forward_request : Request
forward_request = record { type = codes "tcpip-forward"; want_reply = true; payload = [] }

free_ports : (p : ℕ) → listens p ≡ true → has_id p (12 ∷ []) ≡ false
unfolding has_id
free_ports p h = ground (arith, h)

handle_global_requests-left_example :
    (server_pool_laws.held
        (handle_global_requests server_pool unmarshal listens pool
          (12 ∷ [])
          (forward_request ∷ [])).alloc
        11
      ≡ server_pool_laws.held pool 11)
    × (has_id 11
          (handle_global_requests server_pool unmarshal listens pool
            (12 ∷ [])
            (forward_request ∷ [])).listeners
        ≡ has_id 11 (12 ∷ []))
unfolding server_pool_laws
handle_global_requests-left_example =
    handle_global_requests-left server_pool server_pool_laws unmarshal listens pool (12 ∷ [])
      (forward_request ∷ []) 11 (new_port_allocator-IsPool 10 12 (omega arith) (omega arith))
      free_ports

abbrev files : Files
files = record { exe = some (1 ∷ []); new = none; old = none }

abbrev update_env : Install.Env
update_env = record {
  signing_public_key = b'k' ∷ [];
  finds_executable = true;
  binary = some (record { status_code = 200; body = 2 ∷ []; breaks = false });
  opens = true;
  closes = true;
  removes = true;
  reads = true;
  signature = some (record { status_code = 200; body = []; breaks = false });
  decode_hex = λ s. none;
  ed25519_verify = λ k d s. false;
  moves_aside = true;
  moves_in = true;
  moves_back = true;
}

abbrev update_config : Config
update_config = record { current = codes "v1.2"; public_key_hex = [] }

check_once-Round_example :
    Round update_env update_config files
      (check_once update_env update_config (ok (codes "v1.3")) files).0
      (check_once update_env update_config (ok (codes "v1.3")) files).1
check_once-Round_example = check_once-Round update_env update_config (ok (codes "v1.3")) files

abbrev entry : ReqEntry
entry = record {
  id = 0;
  time = 1;
  method = codes "GET";
  path = codes "/";
  host = [];
  local_port = 80;
  status = 200;
  duration = 2;
  req_headers = [];
  resp_headers = [];
  req_body = [];
  resp_body = [];
  req_streamed = false;
  replayed = false;
}

record_all-new_dashboard_example :
    let m = (new_dashboard (pos 1)).max_entries in
    ((record_all (new_dashboard (pos 1)) (entry ∷ entry ∷ [])).entries
      ≡ drop (length (entry ∷ entry ∷ []) - m) (numbered 0 (entry ∷ entry ∷ [])))
    × (1 ≤ m)
    × (m ≤ 100000)
record_all-new_dashboard_example = record_all-new_dashboard (pos 1) (entry ∷ entry ∷ [])

-- 127.0.0.1 is on loopback, and no address has a port.
abbrev dash_net : Dashboard.Net
dash_net = record {
  split_host_port = λ s. none;
  is_loopback_ip = λ s. bytes_eq s (codes "127.0.0.1");
  url_host = λ s. some (codes "localhost");
}

abbrev dash_call : Dashboard.Call
dash_call = record {
  remote_addr = codes "127.0.0.1";
  host = codes "localhost";
  method = codes "POST";
  origin = codes "http://localhost";
}

abbrev admin_net : Admin.Net
admin_net = record { split_host_port = λ s. none; is_loopback_ip = λ s. false }

abbrev admin_call : Admin.Call
admin_call = record {
  remote_addr = codes "1.2.3.4";
  host = codes "a";
  authorization = codes "Bearer t";
}

passes : guard admin_net (codes "t") admin_call ≡ true
unfolding guard token_ok bytes_eq
passes = refl

far :
    (Admin.peer_is_loopback admin_net admin_call.remote_addr
      && Admin.host_is_loopback admin_net admin_call.host)
    ≡ false
unfolding Admin.peer_is_loopback
far = refl

guard-token_example :
    (bytes_eq (codes "t") [] ≡ false) × (drop 7 admin_call.authorization ≡ codes "t")
guard-token_example = guard-token admin_net (codes "t") admin_call passes far

abbrev in_request : InRequest
in_request = record {
  method = codes "GET";
  host = codes "a.d";
  escaped_path = codes "/";
  raw_query = [];
  header = (codes "X-Forwarded-For", codes "9" ∷ []) ∷ [];
  basic = none;
  remote_addr = [];
  has_tls = false;
  body = [];
  body_breaks = false;
}

accept_is_other : is_added (codes "Accept") ≡ false
unfolding bytes_eq
accept_is_other = refl

lookup-forwarded_headers_example :
    let h = forwarded_headers in_request (some (codes "8")) in
    (lookup (codes "Host") h ≡ some (in_request.host ∷ []))
    × (lookup (codes "X-Forwarded-Host") h ≡ some (in_request.host ∷ []))
    × (header_values (codes "X-Forwarded-Proto") h
        ≡ or_scheme in_request.has_tls
            (header_values (codes "X-Forwarded-Proto") in_request.header))
    × (header_values (codes "X-Forwarded-For") h
        ≡ with_address
            (some (codes "8"))
            (header_values (codes "X-Forwarded-For") in_request.header))
    × (lookup (codes "Accept") h ≡ lookup (codes "Accept") in_request.header)
lookup-forwarded_headers_example =
    lookup-forwarded_headers in_request (some (codes "8")) (codes "Accept") accept_is_other

abbrev upgrade_request : InRequest
upgrade_request = record in_request { header = upgrade }

is_websocket_upgrade_req-forwarded_headers_example :
    is_websocket_upgrade_req (forwarded_headers upgrade_request none)
    ≡ is_websocket_upgrade upgrade_request.header
is_websocket_upgrade_req-forwarded_headers_example =
    is_websocket_upgrade_req-forwarded_headers upgrade_request none upgrade-IsCanonical
      upgrade-IsMap

abbrev reads : List Read
reads = record { data_ = 5 ∷ []; stopped = false; writes = true } ∷ []

relay_public_conn-bytes_example :
    stream_bytes 3 (relay_public_conn world 3 true (4 ∷ []) true reads).sent
    ≡ stream_bytes 3 world.sent ++ ((4 ∷ []) ++ whole reads)
relay_public_conn-bytes_example = relay_public_conn-bytes world 3 (4 ∷ []) reads refl

-- A client has one forward, and its number is written as the digit.
abbrev lines : Lines
lines = record {
  fields = λ s. codes "OK" ∷ codes "1" ∷ [];
  atoi = λ s. some (pos 1);
  itoa = λ n. codes "1";
}

no_newline : (contains_byte 10 (codes "1") ≡ false) × All (IsOneLine lines) client.forwards
unfolding contains_byte
no_newline = (refl, ((refl, refl), tt))

query_forwards-list_answer_example :
    query_forwards lines (list_answer lines client)
    ≡ some (
        ok (
          map
            (λ f. trim_space (lines.itoa f.port ++ (codes " " ++ (f.url ++ newline))))
            client.forwards))
query_forwards-list_answer_example =
    query_forwards-list_answer lines client no_newline.0 no_newline.1 refl refl

abbrev switching : HttpResponse
switching = record { status_code = 101; headers = []; body = []; body_streamed = false }

serve_web_socket-bytes_example :
    stream_bytes 3 (serve_web_socket (λ k. k) world 3 switching true true reads []).0.sent
    ≡ stream_bytes 3 world.sent ++ if_switched switching true true (up_to_failure reads)
serve_web_socket-bytes_example =
    serve_web_socket-bytes (λ k. k) world 3 switching true true reads []

abbrev attempts : List Attempt
attempts = fails ∷ fails ∷ ran true ∷ fails ∷ signalled false ∷ []

run_loop-schedule_example :
    (waited (run_loop true 1 false attempts) ≡ schedule 0 attempts)
    × (in_turn false (run_loop true 1 false attempts) ≡ true)
run_loop-schedule_example = run_loop-schedule true attempts

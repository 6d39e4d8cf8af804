-- ===== src/Examples/Sessions.antt =====
-- Connections of clients, and of the public side, at concrete inputs.
use vlgr.Prelude.{ℕ, ◌≡◌, ◌≢◌, refl, true, false, List, [], ◌∷◌, ◌++◌, none, some, arith, bytes_eq}
use vlgr.Prelude.Assoc.{nat_key, bytes_key, lookup}
use vlgr.Prelude.Bytes.{get_be, put_be}
use vlgr.Prelude.Outcome.{ok}
use vlgr.Protocol.{Frame}
use vlgr.Protocol.Wire.{read_uint, read_string, write_string}
use vlgr.Protocol.Frames.{decode_frame}
use vlgr.Protocol.Auth.{decode_auth}
use vlgr.Protocol.Http.{encode_http_request, write_headers, write_fields, write_values, write_body}
use vlgr.Server.Registry.{Tunnel}
use vlgr.Server.Handler.State.{ClientHandler, World, Env}
use vlgr.Server.Handler.Handshake.{token_ok}
use vlgr.Server.Handler.Dispatch.{run}
use vlgr.Server.Handler.Dispatch.Gate.{Locked, run-Locked}
use vlgr.Server.Handler.Ownership.Ends.{Owner, Over, run-Over}
use vlgr.Server.Handler.Requests.{start_forward, handle_http_res, await_response, add_pending}
use vlgr.Server.Handler.Requests.Acts.{stream_close, acts}
use vlgr.Server.Handler.Requests.Delivery.{await_response-start_forward}
use vlgr.Server.Sni.{Chunk, value, panic, extract_sni, peek_client_hello}
use vlgr.Server.Sni.NoPanic.{extract_sni-ne-panic}
use vlgr.Server.Sni.Peek.{Peeked, peek_client_hello-Peeked, peek_client_hello_complete}
use vlgr.Examples.Messages.{request, response_input, plain_response, response_input-decodes}

abbrev handler : ClientHandler
handler = record {
  me = 1;
  tunnels = [];
  tunnel_count = 0;
  base_domain = b'd' ∷ [];
  expected_token = b't' ∷ [];
  authenticated = true;
  client_version = [];
  tcp_host = [];
  tcp_tunnels = [];
  tls_tunnels = [];
  pending = [];
  requests = [];
  request_id_seq = 0;
  closed = false;
}

abbrev other_tunnel : Tunnel
other_tunnel = record { id = 6; subdomain = b'z' ∷ []; handler = 2 }

abbrev pub world : World
world = record {
  handler = handler;
  registry = (b'z' ∷ [], other_tunnel) ∷ [];
  tls_registry = none;
  tcp_alloc = none;
  sent = [];
}

-- Hashes are the texts themselves.
abbrev pub env : Env
env = record {
  random_name = none;
  random_id = some (5 ∷ []);
  now = 0;
  listens = true;
  writes = true;
  sends = true;
  sha256 = λ s. s;
  version = [];
}

-- A frame that registers port 80 under the name "a".
abbrev register_message : List ℕ
register_message =
    4 ∷ 0 ∷ 0 ∷ 0 ∷ 0 ∷ 0 ∷ 0 ∷ 0 ∷ 0 ∷ 0 ∷ 0 ∷ 0 ∷ 0 ∷ 0 ∷ 0 ∷ 0 ∷ 0 ∷ 0 ∷ 0 ∷ 0 ∷ 4 ∷ 0 ∷ 80 ∷ 1
    ∷ b'a' ∷ []

-- A frame that authenticates with the token "x".
abbrev auth_message : List ℕ
auth_message =
    1 ∷ 0 ∷ 0 ∷ 0 ∷ 0 ∷ 0 ∷ 0 ∷ 0 ∷ 0 ∷ 0 ∷ 0 ∷ 0 ∷ 0 ∷ 0 ∷ 0 ∷ 0 ∷ 0 ∷ 0 ∷ 0 ∷ 0 ∷ 3 ∷ 0 ∷ 1 ∷ b'x'
    ∷ []

world-Owner : Owner world
unfolding lookup
world-Owner = record {
  http = record {
    keys = tt;
    held = λ id t h. absurd (ground (arith, h));
    known = λ s t h mine. ground (arith, h, mine);
  };
  tls = record {
    keys = tt;
    held = λ id t h. absurd (ground (arith, h));
    known = λ s t h mine. ground (arith, h, mine);
  };
}

run-Over_example : Over world (run world ((env, register_message) ∷ []))
unfolding lookup
run-Over_example =
    run-Over world ((env, register_message) ∷ []) refl world-Owner ((λ b e. (refl, refl)), tt)
      (λ c. refl, tt)

abbrev stranger : World
stranger = record world { handler = record handler { authenticated = false } }

run-Locked_example :
    Locked stranger (run stranger ((env, register_message) ∷ (env, auth_message) ∷ []))
unfolding decode_frame read_uint get_be decode_auth read_string token_ok bytes_eq
run-Locked_example =
    run-Locked stranger ((env, register_message) ∷ (env, auth_message) ∷ [])
      (record {
        authenticated = refl;
        expected_token = refl;
        tunnels = refl;
        tls_tunnels = refl;
        tcp_tunnels = refl;
        registry = refl;
        tls_registry = refl;
        tcp_alloc = refl;
      })
      refl

abbrev response_frame : Frame
response_frame = record { type = 0x08; tunnel_id = 5; request_id = 1; payload = response_input }

abbrev other_frame : Frame
other_frame = record { type = 0x0C; tunnel_id = 5; request_id = 2; payload = [] }

request-started : (start_forward world env 5 request true).1 ≡ ok 1
unfolding start_forward encode_http_request add_pending write_string write_headers write_fields
    write_values write_body put_be
request-started = refl

await_response-start_forward_example :
    (await_response
      (handle_http_res
        (acts (stream_close other_frame ∷ []) (start_forward world env 5 request true).0)
        env
        response_frame)
      false
      1).1
    ≡ ok plain_response
await_response-start_forward_example =
    await_response-start_forward world env 5 request true (stream_close other_frame ∷ []) env
      response_frame plain_response request-started refl response_input-decodes

-- A ClientHello that names the host "a".
abbrev hello_head : List ℕ
hello_head = 22 ∷ 3 ∷ 1 ∷ 0 ∷ 57 ∷ 1 ∷ 0 ∷ 0 ∷ 53 ∷ 3 ∷ 3 ∷ []

abbrev hello_random : List ℕ
hello_random =
    0 ∷ 0 ∷ 0 ∷ 0 ∷ 0 ∷ 0 ∷ 0 ∷ 0 ∷ 0 ∷ 0 ∷ 0 ∷ 0 ∷ 0 ∷ 0 ∷ 0 ∷ 0 ∷ 0 ∷ 0 ∷ 0 ∷ 0 ∷ 0 ∷ 0 ∷ 0 ∷ 0
    ∷ 0 ∷ 0 ∷ 0 ∷ 0 ∷ 0 ∷ 0 ∷ 0 ∷ 0 ∷ []

abbrev hello_tail : List ℕ
hello_tail = 0 ∷ 0 ∷ 2 ∷ 19 ∷ 1 ∷ 1 ∷ 0 ∷ 0 ∷ 10 ∷ 0 ∷ 0 ∷ 0 ∷ 6 ∷ 0 ∷ 4 ∷ 0 ∷ 0 ∷ 1 ∷ b'a' ∷ []

abbrev hello : List ℕ
hello = hello_head ++ hello_random ++ hello_tail

hello-name : extract_sni hello ≡ value (b'a' ∷ [])
unfolding extract_sni get_be
hello-name = refl

extract_sni-ne-panic_example : extract_sni (22 ∷ 3 ∷ 1 ∷ 0 ∷ 9 ∷ 1 ∷ []) ≢ panic
extract_sni-ne-panic_example = extract_sni-ne-panic (22 ∷ 3 ∷ 1 ∷ 0 ∷ 9 ∷ 1 ∷ [])

abbrev chunks : List Chunk
chunks =
    record { bytes = hello_head ++ hello_random; failed = false }
    ∷ record { bytes = hello_tail; failed = false }
    ∷ []

peek_client_hello-Peeked_example : Peeked [] chunks (peek_client_hello chunks)
peek_client_hello-Peeked_example = peek_client_hello-Peeked chunks

peek_client_hello_complete_example : (peek_client_hello chunks).1 ≡ some (b'a' ∷ [])
peek_client_hello_complete_example =
    peek_client_hello_complete chunks (b'a' ∷ []) (refl, (refl, tt)) (omega arith) hello-name

abbrev extension : List ℕ
extension = 0 ∷ 0 ∷ 0 ∷ 6 ∷ 0 ∷ 4 ∷ 0 ∷ 0 ∷ 1 ∷ b'a' ∷ []

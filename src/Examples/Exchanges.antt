-- ===== src/Examples/Exchanges.antt =====
-- The server and the client together, and the client on its own, at concrete inputs.
use vlgr.Prelude.{ℕ, ◌+◌, ◌≡◌, refl, true, false, List, [], ◌∷◌, ◌++◌, none, some, arith}
use vlgr.Prelude.Assoc.{nat_key, lookup, insert}
use vlgr.Prelude.Bytes.{put_be}
use vlgr.Prelude.Outcome.{Outcome, ok}
use vlgr.Prelude.Ids.{has_id, remove_id}
use vlgr.Protocol.{Frame}
use vlgr.Prelude.Text.{equal_fold}
use vlgr.Protocol.Wire.{write_string}
use vlgr.Protocol.Http.{
  encode_http_request, encode_http_response, write_values, write_headers, write_fields, write_body,
}
use vlgr.Protocol.Upgrade.{is_websocket_upgrade_req}
use vlgr.Client.{port_for, find_port}
use vlgr.Client.Streams.{
  eof, open_body, handle_stream_data, handle_stream_close, push_body, update_body, read, next_chunk,
  copy_out,
}
use vlgr.Client.Streams.Upload.{
  arrive, shut, take_bytes, steps, step, read_upload, fresh_upload, carried,
}
use vlgr.Client.Streams.Flow.{steps-eof}
use vlgr.Client.Serve.{Texts, LocalRequest, LocalResponse, handle_http_req, local_request, asks}
use vlgr.Client.Serve.Asked.{IsFaithful}
use vlgr.Client.Serve.Whole.{serve}
use vlgr.Client.Serve.Accounts.{Accounts, answers}
use vlgr.Client.Serve.Answers.{serve-Accounts}
use vlgr.Client.Serve.Exchange.{
  last_frame, request_sent, request_frame, inline_response, await_response-serve,
}
use vlgr.Client.Session.{Config, Conn, connect}
use vlgr.Client.Session.Connected.{Progress, wanted, after_auth, connect-Progress}
use vlgr.Server.Handler.Requests.{start_forward, add_pending, handle_http_res, await_response}
use vlgr.Server.Handler.Requests.Acts.{acts}
use vlgr.Examples.Messages.{request, request-IsSendable}
use vlgr.Examples.Services.{client}
use vlgr.Examples.Sessions.{world, env}

abbrev texts : Texts
texts = record { describe = λ m. []; parse_int = λ s. none }

abbrev local : LocalResponse
local = record { status_code = 200; headers = []; body = 7 ∷ [] }

abbrev answer : LocalRequest → Outcome (List ℕ) LocalResponse
answer r = ok local

abbrev encoded : List ℕ
encoded = 0 ∷ 200 ∷ 0 ∷ 0 ∷ 0 ∷ 0 ∷ 0 ∷ 0 ∷ 0 ∷ 1 ∷ 7 ∷ []

local-encodes : encode_http_response (inline_response local) ≡ ok encoded
unfolding encode_http_response write_headers write_fields write_body put_be
local-encodes = refl

mapped : port_for client 4 ≡ some 80
unfolding port_for find_port
mapped = refl

plain : is_websocket_upgrade_req request.headers ≡ false
unfolding is_websocket_upgrade_req equal_fold
plain = refl

abbrev chunk : List ℕ → Frame
chunk payload = record { type = 0x0B; tunnel_id = 0; request_id = 9; payload = payload }

no_relay : has_id 9 client.relays ≡ false
unfolding has_id
no_relay = refl

started : (start_forward world env 4 request true).1 ≡ ok 1
unfolding start_forward encode_http_request add_pending write_string write_headers write_fields
    write_values write_body put_be
started = refl

await_response-serve_example :
    (payload : List ℕ) × (reply : Frame) × ((start_forward world env 4 request true).0.sent
      ≡ world.sent ++ request_sent 4 1 payload ∷ [])
    × ((handle_http_req texts client (request_frame 4 1 payload)).1
        ≡ asks request (local_request texts 80 request))
    × IsFaithful 80 request (local_request texts 80 request)
    × (last_frame (serve texts answer [] client (request_frame 4 1 payload)).sent ≡ some reply)
    × ((await_response
          (handle_http_res (acts [] (start_forward world env 4 request true).0) env reply)
          false
          1).1
        ≡ ok (inline_response local))
await_response-serve_example =
    await_response-serve world env 4 request true 1 [] env texts answer [] client 80 local encoded
      request-IsSendable started refl (omega arith) mapped plain refl (omega arith)
      (record {
        status = omega arith;
        fields = tt;
        readable = record { is_map = tt; few = omega arith; few_values = tt };
        body = omega arith;
      })
      local-encodes (omega arith)

serve-Accounts_example :
    Accounts 9
      (answers 9 client.sent + 1)
      client.local_requests
      client.relay_count
      false
      false
      false
      (serve texts answer [] client (chunk []))
serve-Accounts_example = serve-Accounts texts answer [] client (chunk []) no_relay no_relay no_relay

ends :
    (steps 9 (fresh_upload client 9) (
      arrive true (chunk (1 ∷ 2 ∷ []))
      ∷ take_bytes 1 none
      ∷ shut (chunk [])
      ∷ take_bytes 4 none
      ∷ take_bytes 4 none
      ∷ [])).last
    ≡ eof
unfolding steps step open_body handle_stream_data handle_stream_close push_body update_body
    read_upload read next_chunk copy_out has_id remove_id lookup insert
ends = refl

steps-eof_example :
    (steps 9 (fresh_upload client 9) (
      arrive true (chunk (1 ∷ 2 ∷ []))
      ∷ take_bytes 1 none
      ∷ shut (chunk [])
      ∷ take_bytes 4 none
      ∷ take_bytes 4 none
      ∷ [])).got
    ≡ carried 9 (
        arrive true (chunk (1 ∷ 2 ∷ []))
        ∷ take_bytes 1 none
        ∷ shut (chunk [])
        ∷ take_bytes 4 none
        ∷ take_bytes 4 none
        ∷ [])
steps-eof_example =
    steps-eof client 9
      (arrive true (chunk (1 ∷ 2 ∷ []))
        ∷ take_bytes 1 none
        ∷ shut (chunk [])
        ∷ take_bytes 4 none
        ∷ take_bytes 4 none
        ∷ [])
      no_relay ends

abbrev config : Config
config = record {
  token = b't' ∷ [];
  ports = 80 ∷ [];
  subdomains = [];
  tcp_forwards = [];
  tls_forwards = [];
}

-- The server answers to both messages.
abbrev conn : Conn
conn = record {
  incoming =
      (2 ∷ 0 ∷ 0 ∷ 0 ∷ 0 ∷ 0 ∷ 0 ∷ 0 ∷ 0 ∷ 0 ∷ 0 ∷ 0 ∷ 0 ∷ 0 ∷ 0 ∷ 0 ∷ 0 ∷ 0 ∷ 0 ∷ 0 ∷ 0 ∷ [])
      ∷ (5 ∷ 0 ∷ 0 ∷ 0 ∷ 0 ∷ 0 ∷ 0 ∷ 0 ∷ 0 ∷ 0 ∷ 0 ∷ 0 ∷ 0 ∷ 0 ∷ 0 ∷ 0 ∷ 0 ∷ 0 ∷ 0 ∷ 0 ∷ 10 ∷ 1
          ∷ b'u' ∷ 0 ∷ 0 ∷ 0 ∷ 0 ∷ 0 ∷ 0 ∷ 0 ∷ 7 ∷ [])
      ∷ [];
  writes = true ∷ true ∷ [];
}

connect-Progress_example :
    Progress client
      (connect [] config client (some conn)).0
      (connect [] config client (some conn)).1
      (wanted config)
      (after_auth (some conn))
connect-Progress_example = connect-Progress [] config client (some conn)

-- ===== src/Client/Serve.antt =====
-- internal/client/tunnel.go: a request of the server, from its frame to the response.
-- The local service is reached through net/http: `LocalRequest` is what is handed to it, and its
-- answer, or the text of the error, is an argument. The text of the client's own messages is a
-- parameter, `describe`. What the goroutine does is cut where it waits for the local service.
pub mod Whole
pub mod Accounts
pub mod Ends
pub mod Answers
pub mod Asked
pub mod Exchange
use vlgr.Prelude.{
  ℕ, ◌+◌, ◌-◌, ◌%◌, ◌^◌, Bool, true, false, not, ◌&&◌, ◌||◌, List, [], ◌∷◌, ◌++◌, Option, none,
  some, length, take, ltb, leb, ◌==◌, bytes_eq, if◌then◌else◌,
}
use vlgr.Prelude.Bytes.{codes}
use vlgr.Prelude.Ids.{has_id, remove_id}
use vlgr.Prelude.Int.{ℤ, negsuc}
use vlgr.Prelude.Outcome.{Outcome, ok, err}
use vlgr.Prelude.Text.{equal_fold}
use vlgr.Protocol as Protocol
use vlgr.Protocol.{
  Frame, Headers, HttpRequest, HttpResponse, max_frame_size, inline_body_limit, msg_http_res,
  msg_stream_data,
}
use vlgr.Protocol.Http.{decode_http_request, encode_http_response}
use vlgr.Protocol.Upgrade.{is_websocket_upgrade_req}
use vlgr.Client.{Tunnel, port_for, write_frame}
use vlgr.Client.Streams.{open_body, drop_body, send_stream_close, max_concurrent_relays}

abbrev pub max_concurrent_local_reqs : ℕ
max_concurrent_local_reqs = 100

pub data Message : Type 0 where
  too_many_local_requests too_many_transfers too_many_websockets : Message
  decode_failed : Protocol.Error → Message
  unknown_tunnel : ℕ → Message
  local_error : List ℕ → Message
  encoding_failed : Protocol.Error → Message
  exceeds_frame_size : ℕ → Message

-- What is the same in every call: the texts, and strconv.ParseInt.
pub record Texts : Type 0 where
  pub describe : Message → List ℕ
  pub parse_int : List ℕ → Option ℤ

-- The http.Request that is made: the headers are those that are added, in order, and `host` is set
-- where a Host header has a value.
pub record LocalRequest : Type 0 where
  pub port : ℕ
  pub method : List ℕ
  pub path : List ℕ
  pub host : Option (List ℕ)
  pub headers : List (List ℕ × List ℕ)
  pub body : List ℕ
  pub body_streamed : Bool
  pub content_length : Option ℤ

pub record LocalResponse : Type 0 where
  pub status_code : ℕ
  pub headers : Headers
  pub body : List ℕ

unfoldable pub first_header : Headers → List ℕ → List ℕ
unfolding equal_fold
first_header [] key = []
first_header ((k, []) ∷ h) key = first_header h key
first_header ((k, v ∷ vs) ∷ h) key =
    let rest = first_header h key in if equal_fold k key then v else rest

unfoldable pub content_length : Texts → Headers → ℤ
unfolding first_header bytes_eq
content_length texts h =
    let v = first_header h (codes "Content-Length") in
    if bytes_eq v [] then negsuc 0 else elim (texts.parse_int v) [ none ↦ negsuc 0 | some n ↦ n ]

abbrev pub pairs : List ℕ → List (List ℕ) → List (List ℕ × List ℕ)
pairs k [] = []
pairs k (v ∷ vs) = (k, v) ∷ pairs k vs

-- The adds of copyHeaders, in the order of the headers.
unfoldable pub copied_headers : Headers → List (List ℕ × List ℕ)
unfolding bytes_eq
copied_headers [] = []
copied_headers ((k, vs) ∷ h) =
    let rest = copied_headers h in
    if bytes_eq k (codes "Content-Length")
      || bytes_eq k (codes "Transfer-Encoding")
      || bytes_eq k (codes "Host")
    then rest
    else pairs k vs ++ rest

-- The Host that copyHeaders sets; a map has the key at most once.
unfoldable pub copied_host : Headers → Option (List ℕ)
unfolding bytes_eq
copied_host [] = none
copied_host ((k, []) ∷ h) = copied_host h
copied_host ((k, v ∷ vs) ∷ h) =
    let rest = copied_host h in if bytes_eq k (codes "Host") then some v else rest

unfoldable pub local_request : Texts → ℕ → HttpRequest → LocalRequest
unfolding copied_headers copied_host content_length
local_request texts port req = record {
  port = port;
  method = req.method;
  path = req.path;
  host = copied_host req.headers;
  headers = copied_headers req.headers;
  body = req.body;
  body_streamed = req.body_streamed;
  content_length = if req.body_streamed then some (content_length texts req.headers) else none;
}

abbrev text_response : ℕ → List ℕ → HttpResponse
text_response status msg = record {
  status_code = status;
  headers = (codes "Content-Type", codes "text/plain" ∷ []) ∷ [];
  body = msg;
  body_streamed = false;
}

-- The payload of the response that stands in for one that cannot be sent. Its error is not looked at.
unfoldable pub fallback_payload : Texts → Message → List ℕ
unfolding encode_http_response
fallback_payload texts m = elim (encode_http_response (text_response 502 (texts.describe m))) [
  | err e ↦ []
  | ok b ↦ b
]

unfoldable pub response_payload : Texts → HttpResponse → List ℕ
unfolding fallback_payload encode_http_response
response_payload texts resp = elim (encode_http_response resp) [
  | err e ↦ fallback_payload texts (encoding_failed e)
  | ok b ↦
      if ltb max_frame_size (length b)
      then fallback_payload texts (exceeds_frame_size (length b))
      else b
]

unfoldable pub write_response : Texts → Tunnel → ℕ → ℕ → HttpResponse → Tunnel
unfolding response_payload write_frame
write_response texts t tunnel_id request_id resp = write_frame t (record {
  type = msg_http_res;
  tunnel_id = tunnel_id;
  request_id = request_id;
  payload = response_payload texts resp;
})

unfoldable pub send_http_error : Texts → Tunnel → ℕ → ℕ → ℕ → Message → Tunnel
unfolding write_response
send_http_error texts t tunnel_id request_id status m =
    write_response texts t tunnel_id request_id (text_response status (texts.describe m))

-- What follows the start of handleHTTPReq: nothing, or a wait for the local service.
pub data Begun : Type 0 where
  answered : Begun
  asks upgrades : HttpRequest → LocalRequest → Begun

abbrev release : Tunnel → Tunnel
release t = record t { local_requests = t.local_requests - 1 }

-- handleNormalHTTPReq up to httpClient.Do. It has a place of localReqSem.
unfoldable pub begin_normal : Texts → Tunnel → Frame → HttpRequest → Tunnel × Begun
unfolding port_for send_http_error open_body local_request
begin_normal texts t frame req = elim (port_for t frame.tunnel_id) [
  | none ↦ (
    release (
        send_http_error texts t frame.tunnel_id frame.request_id 502
          (unknown_tunnel frame.tunnel_id)),
    answered,
  )
  | some port ↦ (
    if req.body_streamed then open_body t frame.request_id else t,
    asks req (local_request texts port req),
  )
]

-- handleWebSocketReq up to the dial.
unfoldable pub begin_websocket : Texts → Tunnel → Frame → HttpRequest → Tunnel × Begun
unfolding port_for send_http_error local_request
begin_websocket texts t frame req =
    if leb max_concurrent_relays t.relay_count
    then (
      release (send_http_error texts t frame.tunnel_id frame.request_id 503 too_many_websockets),
      answered,
    )
    else elim (port_for t frame.tunnel_id) [
      | none ↦ (
        release (
            send_http_error texts t frame.tunnel_id frame.request_id 502
              (unknown_tunnel frame.tunnel_id)),
        answered,
      )
      | some port ↦ (
        record t { relay_count = t.relay_count + 1 },
        upgrades req (local_request texts port req),
      )
    ]

unfoldable pub handle_http_req : Texts → Tunnel → Frame → Tunnel × Begun
unfolding begin_normal begin_websocket send_http_error decode_http_request is_websocket_upgrade_req
handle_http_req texts t frame =
    if leb max_concurrent_local_reqs t.local_requests
    then (
      send_http_error texts t frame.tunnel_id frame.request_id 503 too_many_local_requests,
      answered,
    )
    else let t' : Tunnel = record t { local_requests = t.local_requests + 1 } in
      elim (decode_http_request frame.payload) [
        | err e ↦ (
          release (send_http_error texts t' frame.tunnel_id frame.request_id 502 (decode_failed e)),
          answered,
        )
        | ok req ↦
            if is_websocket_upgrade_req req.headers
            then begin_websocket texts t' frame req
            else begin_normal texts t' frame req
      ]

-- streamResponseBody up to its first frame; the Bool says whether it goes on.
unfoldable pub begin_stream : Texts → Tunnel → ℕ → ℕ → ℕ → Headers → Tunnel × Bool
unfolding send_http_error write_response
begin_stream texts t tunnel_id request_id status headers =
    if leb max_concurrent_relays t.relay_count
    then (send_http_error texts t tunnel_id request_id 503 too_many_transfers, false)
    else (
      write_response texts
          (record t { relay_count = t.relay_count + 1; resp_cancels = request_id ∷ t.resp_cancels })
          tunnel_id request_id
          (record { status_code = status; headers = headers; body = []; body_streamed = true }),
      true,
    )

-- `send` of streamResponseBody; `writes` says whether the frame is written without an error.
unfoldable pub send_chunk : Tunnel → ℕ → ℕ → List ℕ → Bool → Tunnel × Bool
unfolding has_id write_frame
send_chunk t tunnel_id request_id chunk writes =
    if has_id request_id t.cancelled || t.done then (t, false) else (
      write_frame t (record {
        type = msg_stream_data;
        tunnel_id = tunnel_id;
        request_id = request_id;
        payload = chunk;
      }),
      writes,
    )

-- The loop of streamResponseBody over what is read of the local response, the prefix first.
unfoldable pub pump_response : Tunnel → ℕ → ℕ → List (List ℕ × Bool) → Tunnel
unfolding send_chunk
pump_response t tunnel_id request_id [] = t
pump_response t tunnel_id request_id ((chunk, writes) ∷ rest) =
    let (t', more) = send_chunk t tunnel_id request_id chunk writes in
    let after = pump_response t' tunnel_id request_id rest in if more then after else t'

-- The deferred end of streamResponseBody.
unfoldable pub end_stream : Tunnel → ℕ → ℕ → Tunnel
unfolding send_stream_close remove_id
end_stream t tunnel_id request_id =
    let closed = send_stream_close t tunnel_id request_id in
    record closed {
      resp_cancels = remove_id request_id closed.resp_cancels;
      relay_count = closed.relay_count - 1;
    }

-- handleNormalHTTPReq when the local service has answered; `true` says that the body is streamed.
unfoldable pub respond : Texts → Tunnel → Frame → Outcome (List ℕ) LocalResponse → Tunnel × Bool
unfolding send_http_error write_response begin_stream
respond texts t frame (err msg) =
    (send_http_error texts t frame.tunnel_id frame.request_id 502 (local_error msg), false)
respond texts t frame (ok resp) =
    let body = take (inline_body_limit + 1) resp.body in
    if ltb inline_body_limit (length body)
    then begin_stream texts t frame.tunnel_id frame.request_id (resp.status_code % 2 ^ 16)
        resp.headers
    else (
      write_response texts t frame.tunnel_id frame.request_id (record {
        status_code = resp.status_code % 2 ^ 16;
        headers = resp.headers;
        body = body;
        body_streamed = false;
      }),
      false,
    )

-- The deferred end of handleNormalHTTPReq and handleHTTPReq.
unfoldable pub end_request : Tunnel → Frame → HttpRequest → Tunnel
unfolding drop_body
end_request t frame req = release (if req.body_streamed then drop_body t frame.request_id else t)

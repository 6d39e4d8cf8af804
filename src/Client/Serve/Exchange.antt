-- ===== src/Client/Serve/Exchange.antt =====
-- internal/server/handler.go and internal/client/tunnel.go together: startForward, the client's
-- handleHTTPReq, and awaitResponse.
use vlgr.Prelude.{
  ℕ, ◌+◌, ◌≤◌, ◌<◌, take_all, le→ltb, ◌%◌, ◌^◌, ◌≡◌, refl, sym, ap, ◌∙◌, Bool, true, false, List,
  [], ◌∷◌, ◌++◌, Option, none, some, arith, all, length, take, ltb, leb, Bool-cases, inl, inr,
  if◌then◌else◌,
}
use vlgr.Prelude.Outcome.{Outcome, ok, ok-injective}
use vlgr.Protocol.{
  Frame, HttpRequest, HttpResponse, max_frame_size, inline_body_limit, msg_http_req, msg_http_res,
}
use vlgr.Protocol.Http.{encode_http_request, encode_http_response, decode_http_request}
use vlgr.Protocol.Http.RoundTrip.{
  IsSendable, IsSendableResponse, decode_http_request-encode_http_request,
  decode_http_response-encode_http_response,
}
use mathlib.Core.List.{append-nil}
use vlgr.Protocol.Upgrade.{is_websocket_upgrade_req}
use vlgr.Server.Handler.State.{World, Env, Sent, write_message}
use vlgr.Server.Handler.State as State
use vlgr.Server.Handler.Requests.{start_forward, handle_http_res, await_response, add_pending}
use vlgr.Server.Handler.Requests.Acts.{Act, acts}
use vlgr.Server.Handler.Requests.Delivery.{names_other, await_response-start_forward}
use vlgr.Client.{Tunnel, port_for, write_frame}
use vlgr.Client.Streams.{open_body, drop_body}
use vlgr.Client.Serve.{
  Texts, LocalRequest, LocalResponse, local_request, response_payload, write_response, asks,
  begin_normal, handle_http_req, respond, end_request, max_concurrent_local_reqs,
}
use vlgr.Client.Serve.Asked.{IsFaithful, local_request-IsFaithful}
use vlgr.Client.Serve.Whole.{stream_rest, finish, serve}

unfoldable pub last_frame : List Frame → Option Frame
last_frame [] = none
last_frame (f ∷ []) = some f
last_frame (f ∷ g ∷ fs) = last_frame (g ∷ fs)

last_frame-append : (fs : List Frame) (f : Frame) → last_frame (fs ++ f ∷ []) ≡ some f
unfolding last_frame
last_frame-append [] f = refl
last_frame-append (g ∷ []) f = refl
last_frame-append (g ∷ h ∷ fs) f = last_frame-append (h ∷ fs) f

-- The frame of a request, as startForward hands it over and as the client gets it.
abbrev pub request_sent : ℕ → ℕ → List ℕ → Sent
request_sent tunnel_id id payload = record {
  type = msg_http_req;
  tunnel_id = tunnel_id;
  request_id = id;
  payload = State.bytes payload;
}

abbrev pub request_frame : ℕ → ℕ → List ℕ → Frame
request_frame tunnel_id id payload = record {
  type = msg_http_req;
  tunnel_id = tunnel_id;
  request_id = id;
  payload = payload;
}

-- What startForward has sent when it gives the id of a request.
start_forward-sent :
    (w : World) (env : Env) (tunnel_id : ℕ) (req : HttpRequest) (streamed : Bool) (id : ℕ)
    (payload : List ℕ)
    → encode_http_request req ≡ ok payload
    → (start_forward w env tunnel_id req streamed).1 ≡ ok id
    → (start_forward w env tunnel_id req streamed).0.sent
      ≡ w.sent ++ request_sent tunnel_id id payload ∷ []
unfolding start_forward add_pending write_message
start_forward-sent w env tunnel_id req streamed id payload encoded started =
    elim (Bool-cases (ltb max_frame_size (length payload))) [
      | inl big ↦ absurd (ground (arith, started, encoded, big))
      | inr fits ↦ elim (Bool-cases env.writes) [
        | inr e ↦ absurd (ground (arith, started, encoded, fits, e))
        | inl e ↦
            let same : (w.request_id_seq + 1) % 2 ^ 64 ≡ id =
              ground (arith, started, encoded, fits, e) in
            rw (encoded, fits, e, start_forward) (rw same refl)
      ]
    ]

response_payload-fits :
    (texts : Texts) (resp : HttpResponse) (b : List ℕ)
    → encode_http_response resp ≡ ok b
    → ltb max_frame_size (length b) ≡ false
    → response_payload texts resp ≡ b
unfolding response_payload
response_payload-fits texts resp b encoded fits =
    rw (encoded, response_payload) (rw (fits, response_payload) refl)

-- The response that handleNormalHTTPReq makes of a local answer whose body is short.
abbrev pub inline_response : LocalResponse → HttpResponse
inline_response local = record {
  status_code = local.status_code % 2 ^ 16;
  headers = local.headers;
  body = local.body;
  body_streamed = false;
}

respond_inline :
    (texts : Texts) (t : Tunnel) (frame : Frame) (local : LocalResponse)
    → length local.body ≤ inline_body_limit
    → respond texts t frame (ok local)
      ≡ (write_response texts t frame.tunnel_id frame.request_id (inline_response local), false)
unfolding respond
respond_inline texts t frame local short =
    let whole : take (inline_body_limit + 1) local.body ≡ local.body =
      take_all (inline_body_limit + 1) local.body (omega (arith, short)) in
    let small : ltb inline_body_limit (length local.body) ≡ false =
      le→ltb inline_body_limit (length local.body) short in
    rw (whole, respond) (rw (small, respond) refl)

end_request-last :
    (t : Tunnel) (frame : Frame) (req : HttpRequest) {f : Option Frame}
    → last_frame t.sent ≡ f
    → last_frame (end_request t frame req).sent ≡ f
unfolding end_request drop_body
end_request-last t frame req last = elim (Bool-cases req.body_streamed) [
  | inl e ↦ rw e last
  | inr e ↦ rw e last
]

write_response-last :
    (texts : Texts) (t : Tunnel) (tunnel_id request_id : ℕ) (resp : HttpResponse)
    → last_frame (write_response texts t tunnel_id request_id resp).sent
      ≡ some (record {
        type = msg_http_res;
        tunnel_id = tunnel_id;
        request_id = request_id;
        payload = response_payload texts resp;
      })
unfolding write_response write_frame
write_response-last texts t tunnel_id request_id resp = last_frame-append t.sent _

-- A request that the client has a port for, answered by the local service.
module _ (texts : Texts) (answer : LocalRequest → Outcome (List ℕ) LocalResponse)
    (chunks : List (List ℕ × Bool)) (t : Tunnel) (frame : Frame) (req : HttpRequest) (port : ℕ)
    (local : LocalResponse) (free : t.local_requests < max_concurrent_local_reqs)
    (mapped : port_for t frame.tunnel_id ≡ some port)
    (decoded : decode_http_request frame.payload ≡ ok req)
    (plain : is_websocket_upgrade_req req.headers ≡ false)
    (answers : answer (local_request texts port req) ≡ ok local)
    (short : length local.body ≤ inline_body_limit) where
  begun : handle_http_req texts t frame ≡ (
      let t' : Tunnel = record t { local_requests = t.local_requests + 1 } in
      (
        if req.body_streamed then open_body t' frame.request_id else t',
        asks req (local_request texts port req),
      ))
  unfolding handle_http_req begin_normal
  begun =
      let room : leb max_concurrent_local_reqs t.local_requests ≡ false = ground (arith, free) in
      rw (room, decoded) (rw plain (rw (mapped, begin_normal) refl))

  serve_last :
      last_frame (serve texts answer chunks t frame).sent
      ≡ some (record {
        type = msg_http_res;
        tunnel_id = frame.tunnel_id;
        request_id = frame.request_id;
        payload = response_payload texts (inline_response local);
      })
  unfolding serve finish stream_rest
  serve_last =
      let t' : Tunnel = record t { local_requests = t.local_requests + 1 } in
      let opened : Tunnel = if req.body_streamed then open_body t' frame.request_id else t' in
      let after : Tunnel =
        write_response texts opened frame.tunnel_id frame.request_id (inline_response local) in
      rw (begun, serve)
        (rw answers (
          rw (respond_inline texts _ frame local short)
            (end_request-last after frame req (write_response-last texts opened _ _ _))))

-- What startForward has sent of a request makes the client ask the local service for the same: the
-- method, the path, the body, the first Host, and the values of every header but Content-Length and
-- Transfer-Encoding; and what the local service answers to that comes back from awaitResponse as it
-- is, whatever frames of the client for other requests come before it: the request is sendable and no upgrade of a WebSocket, the client has a
-- port for its tunnel and a free place, and the response is sendable, has a body of at most the
-- inline limit and fits into a frame. The frame that carries the request and the last frame that the
-- client sends for it are the ones that are handed over.
pub await_response-serve :
    (w : World) (env : Env) (tunnel_id : ℕ) (req : HttpRequest) (streamed : Bool) (id : ℕ)
    (others : List Act) (env' : Env) (texts : Texts)
    (answer : LocalRequest → Outcome (List ℕ) LocalResponse) (chunks : List (List ℕ × Bool))
    (t : Tunnel) (port : ℕ) (local : LocalResponse) (b : List ℕ)
    → IsSendable req
    → (start_forward w env tunnel_id req streamed).1 ≡ ok id
    → all (names_other id) others ≡ true
    → t.local_requests < max_concurrent_local_reqs
    → port_for t tunnel_id ≡ some port
    → is_websocket_upgrade_req req.headers ≡ false
    → answer (local_request texts port req) ≡ ok local
    → length local.body ≤ inline_body_limit
    → IsSendableResponse (inline_response local)
    → encode_http_response (inline_response local) ≡ ok b
    → length b ≤ max_frame_size
    → (payload : List ℕ) × (reply : Frame) × ((start_forward w env tunnel_id req streamed).0.sent
        ≡ w.sent ++ request_sent tunnel_id id payload ∷ [])
      × ((handle_http_req texts t (request_frame tunnel_id id payload)).1
          ≡ asks req (local_request texts port req))
      × IsFaithful port req (local_request texts port req)
      × (last_frame (serve texts answer chunks t (request_frame tunnel_id id payload)).sent
          ≡ some reply)
      × ((await_response
            (handle_http_res
              (acts others (start_forward w env tunnel_id req streamed).0)
              env'
              reply)
            false
            id).1
          ≡ ok (inline_response local))
await_response-serve w env tunnel_id req streamed id others env' texts answer chunks t port local b
      sendable started far free mapped plain answers short fits encoded small =
    let (payload, e, d) = decode_http_request-encode_http_request req [] sendable in
    let (b', e', d') = decode_http_response-encode_http_response (inline_response local) [] fits in
    let frame : Frame = request_frame tunnel_id id payload in
    let same : b' ≡ b = ok-injective (sym e' ∙ encoded) in
    let back : response_payload texts (inline_response local) ≡ b =
      response_payload-fits texts _ b encoded (le→ltb max_frame_size (length b) small) in
    let reply : Frame = record {
      type = msg_http_res;
      tunnel_id = tunnel_id;
      request_id = id;
      payload = response_payload texts (inline_response local);
    } in
    (
      payload,
      reply,
      start_forward-sent w env tunnel_id req streamed id payload e started,
      ap (λ p. p.1)
          (begun texts answer chunks t frame req port local free mapped (cc (append-nil payload, d))
            plain answers short),
      local_request-IsFaithful texts port req,
      serve_last texts answer chunks t frame req port local free mapped (cc (append-nil payload, d))
          plain answers short,
      await_response-start_forward w env tunnel_id req streamed others env' reply
          (inline_response local) started far (cc (back, same, append-nil b', d')),
    )

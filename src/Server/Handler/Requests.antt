-- ===== src/Server/Handler/Requests.antt =====
-- internal/server/handler.go: the requests in flight, from startForward to the response, and the
-- frames that a client sends for them.
-- A select that waits is taken at the moment when it fires: what other goroutines do before that,
-- such as draining a channel, is a step of its own that comes first. What handleHTTPRes and
-- handleStreamData do under h.mu and what follows the unlock are steps of their own in Acts.
pub mod Pending
pub mod Acts
pub mod Delivery
use vlgr.Prelude.{
  ℕ, ◌+◌, ◌%◌, ◌^◌, Bool, true, false, not, ◌&&◌, ◌||◌, List, [], ◌∷◌, ◌++◌, Option, none, some,
  length, ltb, ◌==◌, if◌then◌else◌,
}
use vlgr.Prelude.Assoc.{nat_key, lookup, insert}
use vlgr.Prelude.Outcome.{Outcome, ok, err}
use vlgr.Protocol.{
  Error, Frame, HttpRequest, HttpResponse, max_frame_size, msg_http_req, msg_stream_close,
}
use vlgr.Protocol.Http.{encode_http_request, decode_http_response}
use vlgr.Server.Handler.State.{PendingReq, World, Env, bytes, write_message}
use vlgr.Server.Handler.Cleanup.{close_ready, close_done, close_stream, update_request}

abbrev pub stream_relay_buf : ℕ
stream_relay_buf = 256

unfoldable pub is_pending : ℕ → List ℕ → Bool
is_pending id [] = false
is_pending id (j ∷ ids) = j == id || is_pending id ids

-- delete(h.pending, id)
unfoldable pub without : ℕ → List ℕ → List ℕ
without id [] = []
without id (j ∷ ids) = let rest = without id ids in if j == id then rest else j ∷ rest

unfoldable pub remove_pending : World → ℕ → World
unfolding without
remove_pending w id = record w { handler = record w.handler { pending = without id w.pending } }

abbrev on_request : World → ℕ → (PendingReq → PendingReq) → World
on_request w id f = record w {
  handler = record w.handler { requests = update_request id f w.requests };
}

unfoldable pub finish_forward : World → ℕ → World
unfolding remove_pending update_request close_done
finish_forward w id = on_request (remove_pending w id) id close_done

-- The pendingReq behind an id that h.pending holds.
unfoldable pub find_pending : World → ℕ → Option PendingReq
unfolding is_pending lookup
find_pending w id = if is_pending id w.pending then lookup id w.requests else none

-- A buffered channel takes a value while it has room; if the request is also done, the select may
-- take either case.
abbrev can_send : Env → Bool → PendingReq → Bool
can_send env room pr = room && (env.sends || not pr.done)

unfoldable pub handle_tcp_ready : World → Frame → World
unfolding find_pending update_request close_ready
handle_tcp_ready w frame = elim (find_pending w frame.request_id) [
  | none ↦ w
  | some pr ↦ on_request w frame.request_id close_ready
]

-- The select of handleHTTPRes: the channel holds one response.
unfoldable pub deliver : World → Env → ℕ → PendingReq → HttpResponse → World
unfolding update_request
deliver w env id pr resp =
    if pr.has_response && can_send env (ltb (length pr.response) 1) pr
    then on_request w id (λ p. record p { response = p.response ++ resp ∷ [] })
    else w

-- What handleHTTPRes does under h.mu: a request that has no stream leaves h.pending.
unfoldable pub take_out : World → ℕ → World
unfolding lookup remove_pending
take_out w id = elim (lookup id w.requests) [
  | none ↦ w
  | some pr ↦ if pr.has_stream then w else remove_pending w id
]

-- What follows the unlock, on the pendingReq that was found, as it is by then.
unfoldable pub send_response : World → Env → ℕ → HttpResponse → World
unfolding lookup deliver
send_response w env id resp = elim (lookup id w.requests) [
  | none ↦ w
  | some pr ↦ deliver w env id pr resp
]

-- Where no other goroutine comes between the unlock and the select.
unfoldable pub handle_http_res : World → Env → Frame → World
unfolding is_pending take_out send_response
handle_http_res w env frame = elim (decode_http_response frame.payload) [
  | err e ↦ w
  | ok resp ↦
      if is_pending frame.request_id w.pending
      then send_response (take_out w frame.request_id) env frame.request_id resp
      else w
]

unfoldable pub send_stream_close : World → ℕ → World
unfolding write_message
send_stream_close w id = write_message w msg_stream_close 0 id (bytes [])

-- The select of handleStreamData. A send on a closed channel panics, and the panic is recovered.
unfoldable pub push_stream : World → Env → ℕ → PendingReq → List ℕ → World
unfolding update_request remove_pending close_stream send_stream_close
push_stream w env id pr payload =
    if pr.stream_closed
    then w
    else if can_send env (ltb (length pr.stream_data) stream_relay_buf) pr
    then on_request w id (λ p. record p { stream_data = p.stream_data ++ payload ∷ [] })
    else if pr.done
    then w
    else send_stream_close (on_request (remove_pending w id) id close_stream) id

-- What follows the unlock in handleStreamData, on the pendingReq that was found, as it is by then.
unfoldable pub send_stream : World → Env → ℕ → List ℕ → World
unfolding lookup push_stream
send_stream w env id payload = elim (lookup id w.requests) [
  | none ↦ w
  | some pr ↦ if pr.has_stream then push_stream w env id pr payload else w
]

-- Where no other goroutine comes between the unlock and the select.
unfoldable pub handle_stream_data : World → Env → Frame → World
unfolding is_pending send_stream
handle_stream_data w env frame =
    if is_pending frame.request_id w.pending
    then send_stream w env frame.request_id frame.payload
    else w

unfoldable pub handle_stream_close : World → Frame → World
unfolding find_pending remove_pending update_request close_ready close_stream
handle_stream_close w frame = elim (find_pending w frame.request_id) [
  | none ↦ w
  | some pr ↦
      let w' = remove_pending w frame.request_id in
      if pr.has_stream
      then on_request w' frame.request_id (λ p. close_stream (close_ready p))
      else w'
]

-- A new pendingReq of startForward; `streamed` says whether the caller passes a stream channel.
abbrev pub new_pending : Bool → PendingReq
new_pending streamed = record {
  has_response = true;
  response = [];
  has_stream = streamed;
  stream_data = [];
  stream_closed = false;
  has_ready = false;
  ready = false;
  done = false;
}

-- nextRequestID and the registration of the request.
unfoldable pub add_pending : World → PendingReq → World
unfolding insert
add_pending w pr =
    let id = (w.request_id_seq + 1) % 2 ^ 64 in
    record w {
      handler = record w.handler {
        request_id_seq = id;
        requests = insert id pr w.requests;
        pending = id ∷ w.pending;
      };
    }

pub data ForwardError : Type 0 where
  encode_error : Error → ForwardError
  too_large write_error timeout : ForwardError

unfoldable pub start_forward : World → Env → ℕ → HttpRequest → Bool → World × Outcome ForwardError ℕ
unfolding add_pending finish_forward write_message
start_forward w env tunnel_id req streamed =
    let w' = add_pending w (new_pending streamed) in
    let id = w'.request_id_seq in
    elim (encode_http_request req) [
      | err e ↦ (finish_forward w' id, err (encode_error e))
      | ok payload ↦
          if ltb max_frame_size (length payload)
          then (finish_forward w' id, err too_large)
          else let w'' = write_message w' msg_http_req tunnel_id id (bytes payload) in
            if env.writes then (w'', ok id) else (finish_forward w'' id, err write_error)
    ]

-- The select of awaitResponse: a response that is there is taken, unless the timer fires.
unfoldable pub take_response :
    World → ℕ → List HttpResponse → World × Outcome ForwardError HttpResponse
unfolding finish_forward update_request
take_response w id [] = (finish_forward w id, err timeout)
take_response w id (resp ∷ rest) = (on_request w id (λ p. record p { response = rest }), ok resp)

unfoldable pub await_response : World → Bool → ℕ → World × Outcome ForwardError HttpResponse
unfolding finish_forward take_response lookup
await_response w timed_out id =
    if timed_out then (finish_forward w id, err timeout) else elim (lookup id w.requests) [
      | none ↦ (finish_forward w id, err timeout)
      | some pr ↦ take_response w id pr.response
    ]

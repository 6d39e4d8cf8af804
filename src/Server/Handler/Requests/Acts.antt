-- ===== src/Server/Handler/Requests/Acts.antt =====
-- The steps of the goroutines that share a handler, as sequences in any order.
use vlgr.Prelude.{ℕ, Bool, List, [], ◌∷◌, drop}
use vlgr.Protocol.{Frame, HttpRequest, HttpResponse}
use vlgr.Server.Handler.State.{PendingReq, World, Env}
use vlgr.Server.Handler.Cleanup.{update_request, cleanup}
use vlgr.Server.Handler.Requests.{
  remove_pending, finish_forward, handle_tcp_ready, take_out, send_response, handle_http_res,
  send_stream, handle_stream_data, handle_stream_close, start_forward, await_response,
}

-- What the goroutines that share a handler do to its requests: the reading loop handles a frame of
-- the client, a proxy goroutine starts, awaits or ends a request, a relay takes the first chunk of a
-- stream, and the connection ends. Where other goroutines run between the lock of h.pending and what
-- comes after it, the two are steps of their own: `take` and `put` of handleHTTPRes, `push` of
-- handleStreamData (which only looks under the lock), `remove` of removePending.
pub data Act : Type 0 where
  ready stream_close : Frame → Act
  response stream_data : Env → Frame → Act
  start : Env → ℕ → HttpRequest → Bool → Act
  await : Bool → ℕ → Act
  push : Env → ℕ → List ℕ → Act
  put : Env → ℕ → HttpResponse → Act
  finish drain take remove : ℕ → Act
  end : Act

abbrev pop : PendingReq → PendingReq
pop pr = record pr { stream_data = drop 1 pr.stream_data }

abbrev pub act : Act → World → World
act (ready frame) w = handle_tcp_ready w frame
act (stream_close frame) w = handle_stream_close w frame
act (response env frame) w = handle_http_res w env frame
act (stream_data env frame) w = handle_stream_data w env frame
act (push env id payload) w = send_stream w env id payload
act (put env id resp) w = send_response w env id resp
act (take id) w = take_out w id
act (remove id) w = remove_pending w id
act (start env tunnel_id req streamed) w = (start_forward w env tunnel_id req streamed).0
act (await timed_out id) w = (await_response w timed_out id).0
act (finish id) w = finish_forward w id
act (drain id) w = record w {
  handler = record w.handler { requests = update_request id pop w.requests };
}
act end w = cleanup w

abbrev pub acts : List Act → World → World
acts [] w = w
acts (a ∷ as_) w = acts as_ (act a w)

-- ===== src/Server/Handler/Dispatch.antt =====
-- internal/server/handler.go: handleFrame and the loop of Run.
pub mod Gate
use vlgr.Prelude.{ℕ, Bool, true, false, not, ◌&&◌, List, [], ◌∷◌, ◌==◌, if◌then◌else◌}
use vlgr.Prelude.Outcome.{ok, err}
use vlgr.Protocol.{
  Frame, msg_auth, msg_auth_err, msg_register, msg_unregister, msg_register_tcp, msg_register_tls,
  msg_tcp_open, msg_http_res, msg_stream_data, msg_stream_close, msg_close_tunnel,
}
use vlgr.Protocol.Frames.{decode_frame}
use vlgr.Server.Handler.State.{World, Env, authenticate_first, text, write_message}
use vlgr.Server.Handler.Handshake.{handle_auth}
use vlgr.Server.Handler.Tunnels.{
  handle_register, handle_unregister, handle_register_tcp, handle_register_tls,
}
use vlgr.Server.Handler.Cleanup.{cleanup}
use vlgr.Server.Handler.Requests.{
  handle_tcp_ready, handle_http_res, handle_stream_data, handle_stream_close,
}

-- The switch of handleFrame.
unfoldable pub dispatch : World → Env → Frame → World
dispatch w env frame =
    if frame.type == msg_auth
    then handle_auth w env frame
    else if frame.type == msg_register
    then handle_register w env frame
    else if frame.type == msg_unregister
    then handle_unregister w frame
    else if frame.type == msg_register_tcp
    then handle_register_tcp w env frame
    else if frame.type == msg_register_tls
    then handle_register_tls w env frame
    else if frame.type == msg_tcp_open
    then handle_tcp_ready w frame
    else if frame.type == msg_http_res
    then handle_http_res w env frame
    else if frame.type == msg_stream_data
    then handle_stream_data w env frame
    else if frame.type == msg_stream_close
    then handle_stream_close w frame
    else if frame.type == msg_close_tunnel
    then cleanup w
    else w

unfoldable pub handle_frame : World → Env → Frame → World
unfolding dispatch write_message
handle_frame w env frame =
    if not w.authenticated && not (frame.type == msg_auth)
    then write_message w msg_auth_err 0 0 (text authenticate_first)
    else dispatch w env frame

-- One message of the loop of Run: what does not decode is skipped.
unfoldable pub handle_message : World → Env → List ℕ → World
unfolding handle_frame
handle_message w env msg = elim (decode_frame msg) [
  | err e ↦ w
  | ok frame ↦ handle_frame w env frame
]

-- Run: every message that is read before a read fails, and the deferred cleanup. A message that was
-- buffered before `cleanup` closed the connection is read and handled after it.
unfoldable pub run : World → List (Env × List ℕ) → World
unfolding handle_message cleanup
run w [] = cleanup w
run w ((env, msg) ∷ rest) = run (handle_message w env msg) rest

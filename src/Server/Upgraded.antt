-- ===== src/Server/Upgraded.antt =====
-- internal/server/proxy.go: serveWebSocket after the request was forwarded. Whether the connection
-- can be taken over and the head written to it, and what is read of it, are given.
pub mod Relayed
use vlgr.Prelude.{ℕ, Bool, not, List, [], ◌∷◌, ◌++◌, ◌==◌, if◌then◌else◌}
use vlgr.Prelude.Bytes.{codes}
use vlgr.Protocol.{Headers, HttpResponse}
use vlgr.Server.Handler.State.{World}
use vlgr.Server.Handler.Requests.{finish_forward, send_stream_close}
use vlgr.Server.Passthrough.{Read, send_stream_data}
use vlgr.Server.Proxy.{copy_valid_headers}
use vlgr.Server.Proxy.Serving.{Written, write_normal_response, relayed}

abbrev pub crlf : List ℕ
crlf = 13 ∷ 10 ∷ []

unfoldable pub print_header : List ℕ → List ℕ → List ℕ → List ℕ
print_header out key value = out ++ key ++ codes ": " ++ value ++ crlf

-- What is written to the connection before it becomes a stream of bytes.
unfoldable pub switching_head : Headers → List ℕ
unfolding copy_valid_headers print_header
switching_head headers =
    copy_valid_headers print_header (codes "HTTP/1.1 101 Switching Protocols" ++ crlf) headers
    ++ crlf

-- The loop that reads the connection, to a read error or to a write to the client that fails.
unfoldable pub pump_upgraded : World → ℕ → List Read → World
unfolding send_stream_data send_stream_close
pump_upgraded w id [] = send_stream_close w id
pump_upgraded w id (r ∷ rs) =
    let after = pump_upgraded (send_stream_data w id r.data_) id rs in
    if r.writes then after else send_stream_close (send_stream_data w id r.data_) id

-- What the public side gets; `switched` has the head and the bytes of the stream after it.
pub data Answer : Type 0 where
  error_status : ℕ → Answer
  normal : Written → Answer
  head_lost : Answer
  switched : List ℕ → List ℕ → Answer

unfoldable pub serve_web_socket :
    (List ℕ → List ℕ)
    → World
    → ℕ
    → HttpResponse
    → Bool
    → Bool
    → List Read
    → List (List ℕ × Bool)
    → World × Answer
unfolding finish_forward write_normal_response switching_head pump_upgraded relayed
serve_web_socket canonical w id resp hijacks flushes reads chunks =
    if not (resp.status_code == 101)
    then (finish_forward w id, normal (write_normal_response canonical resp))
    else if not hijacks
    then (finish_forward w id, error_status 500)
    else if not flushes
    then (finish_forward w id, head_lost)
    else (
      finish_forward (pump_upgraded w id reads) id,
      switched (switching_head resp.headers) (relayed chunks),
    )

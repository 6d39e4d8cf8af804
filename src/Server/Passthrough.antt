-- ===== src/Server/Passthrough.antt =====
-- internal/server: what the server reads of a public connection and sends to the client.
-- handler.go: relayPublicConn and SendStreamData; proxy.go: pumpRequestBody; tlspass.go: route.
-- A connection is the list of what is read of it; for each write to the client it says whether the
-- write succeeds. The goroutine that writes to the public connection is not modelled.
pub mod Carried
use vlgr.Prelude.{
  ℕ, ◌+◌, ◌%◌, ◌^◌, Bool, true, false, not, ◌&&◌, List, [], ◌∷◌, ◌++◌, Option, none, some, length,
  ltb, bytes_eq, if◌then◌else◌,
}
use vlgr.Protocol.{msg_stream_data, msg_tcp_open}
use vlgr.Server.Handler.State.{PendingReq, World, bytes, write_message}
use vlgr.Server.Handler.Requests.{add_pending, finish_forward, send_stream_close}
use vlgr.Server.Registry.{Tunnel, Registry, get}
use vlgr.Server.Sni.{Chunk, peek_client_hello}
use vlgr.Server.Subdomain.{extract_subdomain}

unfoldable pub send_stream_data : World → ℕ → List ℕ → World
unfolding write_message
send_stream_data w id data_ = write_message w msg_stream_data 0 id (bytes data_)

-- What one round of a loop reads, whether the request is done before it, and whether the write
-- succeeds.
pub record Read : Type 0 where
  pub data_ : List ℕ
  pub stopped : Bool
  pub writes : Bool

-- The loop of pumpRequestBody.
unfoldable pub pump_rest : World → ℕ → List Read → World
unfolding send_stream_data
pump_rest w id [] = w
pump_rest w id (r ∷ rs) =
    let w' = if ltb 0 (length r.data_) then send_stream_data w id r.data_ else w in
    let after = pump_rest w' id rs in
    if r.stopped then w else if ltb 0 (length r.data_) && not r.writes then w' else after

unfoldable pub pump_request_body : World → ℕ → List ℕ → Bool → List Read → World
unfolding send_stream_data pump_rest send_stream_close
pump_request_body w id prefix writes reads =
    let w' = send_stream_data w id prefix in
    send_stream_close (if writes then pump_rest w' id reads else w') id

-- The pendingReq of a public connection.
abbrev pub public_pending : PendingReq
public_pending = record {
  has_response = false;
  response = [];
  has_stream = true;
  stream_data = [];
  stream_closed = false;
  has_ready = true;
  ready = false;
  done = false;
}

-- relayPublicConn up to its first select; `none` where the client cannot be asked.
unfoldable pub open_public_conn : World → ℕ → Bool → World × Option ℕ
unfolding add_pending write_message finish_forward
open_public_conn w tunnel_id writes =
    let w' = add_pending w public_pending in
    let w'' = write_message w' msg_tcp_open tunnel_id w'.request_id_seq (bytes []) in
    if writes then (w'', some w'.request_id_seq) else (finish_forward w'' w'.request_id_seq, none)

-- The bytes that were peeked, then the loop over the connection, which ends where a write fails.
unfoldable pub pump_public : World → ℕ → List Read → World
unfolding send_stream_data
pump_public w id [] = w
pump_public w id (r ∷ rs) =
    let w' = if ltb 0 (length r.data_) then send_stream_data w id r.data_ else w in
    let after = pump_public w' id rs in if ltb 0 (length r.data_) && not r.writes then w' else after

-- The rest of relayPublicConn: `ready` says whether the client has confirmed in time, and `writes`
-- whether the prefix can be sent.
unfoldable pub relay_public_conn : World → ℕ → Bool → List ℕ → Bool → List Read → World
unfolding send_stream_data pump_public send_stream_close finish_forward
relay_public_conn w id ready prefix writes reads =
    let begun = if ltb 0 (length prefix) then send_stream_data w id prefix else w in
    finish_forward
      (if not ready
        then w
        else if ltb 0 (length prefix) && not writes
        then begun
        else send_stream_close (pump_public begun id reads) id)
      id

-- route of a TLS connection: the tunnel that it goes to with the bytes that were read, if any.
unfoldable pub route : Registry → List ℕ → List Chunk → Option (Tunnel × List ℕ)
unfolding peek_client_hello extract_subdomain get bytes_eq
route registry base_domain chunks =
    let (prefix, sni) = peek_client_hello chunks in
    elim sni [
      | none ↦ none
      | some name ↦
          if bytes_eq (extract_subdomain name base_domain) []
          then none
          else elim (get registry (extract_subdomain name base_domain)) [
            | none ↦ none
            | some tunnel ↦ some (tunnel, prefix)
          ]
    ]

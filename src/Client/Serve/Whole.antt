-- ===== src/Client/Serve/Whole.antt =====
-- internal/client/tunnel.go: the second half of handleWebSocketReq, and a request of the server from
-- its frame to the end of its goroutine, with no other goroutine in between.
use vlgr.Prelude.{ℕ, ◌-◌, ◌%◌, ◌^◌, Bool, true, false, List, [], ◌∷◌, ◌==◌, if◌then◌else◌}
use vlgr.Prelude.Assoc.{nat_key, insert}
use vlgr.Prelude.Outcome.{Outcome, ok, err}
use vlgr.Protocol.{Frame}
use vlgr.Client.{Tunnel}
use vlgr.Client.Streams.{relay_chunk, end_relay}
use vlgr.Client.Serve.{
  Texts, LocalRequest, LocalResponse, local_error, write_response, send_http_error, Begun, answered,
  asks, upgrades, release, handle_http_req, respond, pump_response, end_stream, end_request,
}

-- handleWebSocketReq when the local service has answered, or when the dial, the write or the read
-- has failed; `true` says that the relay goes on.
unfoldable pub finish_upgrade :
    Texts → Tunnel → Frame → Outcome (List ℕ) LocalResponse → Tunnel × Bool
unfolding send_http_error write_response insert
finish_upgrade texts t frame (err msg) =
    let t' = send_http_error texts t frame.tunnel_id frame.request_id 502 (local_error msg) in
    (release (record t' { relay_count = t'.relay_count - 1 }), false)
finish_upgrade texts t frame (ok resp) =
    let id = frame.request_id in
    let t' = write_response texts t frame.tunnel_id id (record {
      status_code = resp.status_code % 2 ^ 16;
      headers = resp.headers;
      body = [];
      body_streamed = false;
    }) in
    if resp.status_code % 2 ^ 16 == 101
    then (
      release (record t' {
        relays = id ∷ t'.relays;
        relay_store =
            insert id (record { written = []; conn_closed = false; done = false }) t'.relay_store;
      }),
      true,
    )
    else (release (record t' { relay_count = t'.relay_count - 1 }), false)

-- The loop over what is read of the local connection; the Bool says whether the write succeeds.
unfoldable pub pump_relay : Tunnel → ℕ → ℕ → List (List ℕ × Bool) → Tunnel
unfolding relay_chunk
pump_relay t tunnel_id id [] = t
pump_relay t tunnel_id id ((chunk, writes) ∷ rest) =
    let t' = relay_chunk t tunnel_id id chunk in
    let after = pump_relay t' tunnel_id id rest in if writes then after else t'

unfoldable pub stream_rest : Tunnel × Bool → ℕ → ℕ → List (List ℕ × Bool) → Tunnel
unfolding pump_response end_stream
stream_rest (t, false) tunnel_id id chunks = t
stream_rest (t, true) tunnel_id id chunks =
    end_stream (pump_response t tunnel_id id chunks) tunnel_id id

unfoldable pub relay_rest : Tunnel × Bool → ℕ → ℕ → List (List ℕ × Bool) → Tunnel
unfolding pump_relay end_relay
relay_rest (t, false) tunnel_id id chunks = t
relay_rest (t, true) tunnel_id id chunks = end_relay (pump_relay t tunnel_id id chunks) tunnel_id id

-- `answer` is the local service, `chunks` what is read of its body or of its connection.
unfoldable pub finish :
    Texts
    → (LocalRequest → Outcome (List ℕ) LocalResponse)
    → List (List ℕ × Bool)
    → Frame
    → Tunnel × Begun
    → Tunnel
unfolding respond stream_rest end_request finish_upgrade relay_rest
finish texts answer chunks frame (t, answered) = t
finish texts answer chunks frame (t, asks req local) =
    end_request
      (stream_rest (respond texts t frame (answer local)) frame.tunnel_id frame.request_id chunks)
      frame req
finish texts answer chunks frame (t, upgrades req local) =
    relay_rest (finish_upgrade texts t frame (answer local)) frame.tunnel_id frame.request_id chunks

unfoldable pub serve :
    Texts
    → (LocalRequest → Outcome (List ℕ) LocalResponse)
    → List (List ℕ × Bool)
    → Tunnel
    → Frame
    → Tunnel
unfolding handle_http_req finish
serve texts answer chunks t frame = finish texts answer chunks frame (handle_http_req texts t frame)

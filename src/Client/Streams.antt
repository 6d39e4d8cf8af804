-- ===== src/Client/Streams.antt =====
-- internal/client/tunnel.go: the frames of streams, the relays of raw connections, and the body of
-- an upload as the local request reads it.
-- A goroutine of the client is a sequence of the steps below; each is one critical section or one
-- operation on a channel. Whether a dial or a write succeeds is an argument.
pub mod Upload
pub mod Arrivals
pub mod Reading
pub mod Flow
use vlgr.Prelude.{
  ℕ, zero, suc, ◌+◌, ◌-◌, Bool, true, false, not, ◌&&◌, ◌||◌, List, [], ◌∷◌, ◌++◌, Option, none,
  some, length, take, drop, ltb, leb, if◌then◌else◌,
}
use mathlib.Core.Option
use vlgr.Prelude.Assoc.{nat_key, lookup, insert}
use vlgr.Prelude.Ids.{has_id, remove_id}
use vlgr.Prelude.Outcome.{Outcome, ok, err}
use vlgr.Protocol.{Frame, msg_tcp_open, msg_stream_data, msg_stream_close}
use vlgr.Client.{Tunnel, StreamRelay, BodyStream, port_for, write_frame}

abbrev pub stream_relay_buf : ℕ
stream_relay_buf = 256

abbrev pub max_concurrent_relays : ℕ
max_concurrent_relays = 200

abbrev stream_frame : ℕ → ℕ → ℕ → List ℕ → Frame
stream_frame type tunnel_id request_id payload = record {
  type = type;
  tunnel_id = tunnel_id;
  request_id = request_id;
  payload = payload;
}

unfoldable pub send_stream_close : Tunnel → ℕ → ℕ → Tunnel
unfolding write_frame
send_stream_close t tunnel_id request_id =
    write_frame t (stream_frame msg_stream_close tunnel_id request_id [])

unfoldable pub update_relay : ℕ → (StreamRelay → StreamRelay) → Tunnel → Tunnel
unfolding lookup insert
update_relay id f t = elim (lookup id t.relay_store) [
  | none ↦ t
  | some relay ↦ record t { relay_store = insert id (f relay) t.relay_store }
]

unfoldable pub update_body : ℕ → (BodyStream → BodyStream) → Tunnel → Tunnel
unfolding lookup insert
update_body id f t = elim (lookup id t.body_store) [
  | none ↦ t
  | some bs ↦ record t { body_store = insert id (f bs) t.body_store }
]

abbrev pub close_relay : StreamRelay → StreamRelay
close_relay relay = record relay { done = true; conn_closed = true }

-- The branch of handleStreamData for a relay; `writes` says whether conn.Write succeeds.
unfoldable pub write_relay : Tunnel → Bool → ℕ → List ℕ → Tunnel
unfolding lookup update_relay
write_relay t writes id payload = elim (lookup id t.relay_store) [
  | none ↦ t
  | some relay ↦
      if relay.done
      then t
      else if writes
      then update_relay id (λ r. record r { written = r.written ++ payload ∷ [] }) t
      else update_relay id close_relay t
]

-- The select of handleStreamData, at the moment when it fires: there is room, or the timer has run
-- out and the upload is aborted.
unfoldable pub push_body : Tunnel → ℕ → BodyStream → List ℕ → Tunnel
unfolding update_body remove_id
push_body t id bs payload =
    if ltb (length bs.ch) stream_relay_buf
    then update_body id (λ b. record b { ch = b.ch ++ payload ∷ [] }) t
    else update_body id (λ b. record b { aborted = true; ch_closed = true })
        (record t { body_streams = remove_id id t.body_streams })

unfoldable pub handle_stream_data : Tunnel → Bool → Frame → Tunnel
unfolding has_id write_relay push_body lookup
handle_stream_data t writes frame =
    if has_id frame.request_id t.relays
    then write_relay t writes frame.request_id frame.payload
    else if not (has_id frame.request_id t.body_streams)
    then t
    else elim (lookup frame.request_id t.body_store) [
      | none ↦ t
      | some bs ↦ push_body t frame.request_id bs frame.payload
    ]

unfoldable pub handle_stream_close : Tunnel → Frame → Tunnel
unfolding has_id remove_id update_relay update_body
handle_stream_close t frame =
    let id = frame.request_id in
    if has_id id t.relays
    then update_relay id close_relay (record t { relays = remove_id id t.relays })
    else if has_id id t.body_streams
    then update_body id (λ b. record b { ch_closed = true })
        (record t { body_streams = remove_id id t.body_streams })
    else if has_id id t.resp_cancels
    then record t { resp_cancels = remove_id id t.resp_cancels; cancelled = id ∷ t.cancelled }
    else t

-- handleTCPOpen up to its loop; `dials` says whether the local port answers.
unfoldable pub handle_tcp_open : Tunnel → Bool → Frame → Tunnel
unfolding port_for insert write_frame send_stream_close
handle_tcp_open t dials frame =
    let id = frame.request_id in
    if leb max_concurrent_relays t.relay_count
    then send_stream_close t frame.tunnel_id id
    else elim (port_for t frame.tunnel_id) [
      | none ↦ send_stream_close t frame.tunnel_id id
      | some port ↦
          if not dials
          then send_stream_close t frame.tunnel_id id
          else write_frame
              (record t {
                relay_count = t.relay_count + 1;
                relays = id ∷ t.relays;
                relay_store =
                    insert id (record { written = []; conn_closed = false; done = false })
                      t.relay_store;
              })
              (stream_frame msg_tcp_open frame.tunnel_id id [])
    ]

-- One read of the loop of handleTCPOpen.
unfoldable pub relay_chunk : Tunnel → ℕ → ℕ → List ℕ → Tunnel
unfolding write_frame
relay_chunk t tunnel_id id payload =
    write_frame t (stream_frame msg_stream_data tunnel_id id payload)

-- The deferred end of handleTCPOpen.
unfoldable pub end_relay : Tunnel → ℕ → ℕ → Tunnel
unfolding update_relay remove_id send_stream_close
end_relay t tunnel_id id =
    let closed = update_relay id close_relay t in
    send_stream_close
      (record closed { relays = remove_id id closed.relays; relay_count = closed.relay_count - 1 })
      tunnel_id id

-- handleNormalHTTPReq registers the body of an upload, and takes it away when it returns.
unfoldable pub open_body : Tunnel → ℕ → Tunnel
unfolding insert
open_body t id = record t {
  body_streams = id ∷ t.body_streams;
  body_store = insert id (record { ch = []; ch_closed = false; aborted = false }) t.body_store;
}

unfoldable pub drop_body : Tunnel → ℕ → Tunnel
unfolding remove_id
drop_body t id = record t { body_streams = remove_id id t.body_streams }

-- What Read of a bodyStreamReader gives: some bytes, an error, or nothing since it still waits.
pub data ReadResult : Type 0 where
  bytes : List ℕ → ReadResult
  eof body_aborted tunnel_closed waits : ReadResult

-- a receive from the empty channel
abbrev at_end : BodyStream → ReadResult
at_end s = if not s.ch_closed then waits else if s.aborted then body_aborted else eof

-- The loop of Read: the first chunk that is not empty, and the chunks after it. `stops` is the round
-- in which the select takes the case of the closed tunnel, if it does.
unfoldable pub next_chunk : Option ℕ → BodyStream → List (List ℕ) → List (List ℕ) × ReadResult
next_chunk (some zero) s cs = (cs, tunnel_closed)
next_chunk none s [] = ([], at_end s)
next_chunk (some (suc k)) s [] = ([], at_end s)
next_chunk none s ([] ∷ cs) = next_chunk none s cs
next_chunk (some (suc k)) s ([] ∷ cs) = next_chunk (some k) s cs
next_chunk none s ((b ∷ bs) ∷ cs) = (cs, bytes (b ∷ bs))
next_chunk (some (suc k)) s ((b ∷ bs) ∷ cs) = (cs, bytes (b ∷ bs))

-- The copy into a buffer of `n` bytes, and what remains of the chunk.
unfoldable pub copy_out :
    ℕ → BodyStream → List (List ℕ) × ReadResult → BodyStream × List ℕ × ReadResult
copy_out n s (cs, bytes b) = (record s { ch = cs }, drop n b, bytes (take n b))
copy_out n s (cs, eof) = (record s { ch = cs }, [], eof)
copy_out n s (cs, body_aborted) = (record s { ch = cs }, [], body_aborted)
copy_out n s (cs, tunnel_closed) = (record s { ch = cs }, [], tunnel_closed)
copy_out n s (cs, waits) = (record s { ch = cs }, [], waits)

-- Read: the stream, what remained of the last chunk, and the result.
unfoldable pub read : ℕ → Option ℕ → BodyStream → List ℕ → BodyStream × List ℕ × ReadResult
unfolding next_chunk copy_out
read n stops s [] = copy_out n s (next_chunk stops s s.ch)
read n stops s (b ∷ rem) = (s, drop n (b ∷ rem), bytes (take n (b ∷ rem)))

-- ===== src/Client/Run.antt =====
-- internal/client/tunnel.go: the loop of Run over the frames of the server, PublicURL and Close.
use vlgr.Prelude.{ℕ, Bool, true, List, [], ◌∷◌, ◌++◌, none, some, ◌==◌, if◌then◌else◌}
use vlgr.Prelude.Assoc.{nat_key}
use vlgr.Prelude.Bytes.{codes}
use vlgr.Prelude.Outcome.{ok, err}
use vlgr.Protocol.{
  Frame, msg_register_ok, msg_register_err, msg_http_req, msg_close_tunnel, msg_error,
  msg_stream_data, msg_stream_close, msg_unregister_ok, msg_unregister_err, msg_tcp_open,
}
use vlgr.Protocol.Frames.{decode_frame}
use vlgr.Client.{Forward, refused, Tunnel, write_frame, handle_add_response, handle_del_response}
use vlgr.Client.Streams.{handle_stream_data, handle_stream_close, update_relay, close_relay}

-- What Run does after a frame: the next one, a goroutine for the frame and the next one, or its end.
pub data Next : Type 0 where
  goes_on stops : Next
  serves opens : Frame → Next

unfoldable pub dispatch : Tunnel → Bool → Frame → Tunnel × Next
unfolding handle_add_response handle_del_response handle_stream_data handle_stream_close
dispatch t writes frame =
    if frame.type == msg_http_req
    then (t, serves frame)
    else if frame.type == msg_register_ok
    then ((handle_add_response t frame.payload none).0, goes_on)
    else if frame.type == msg_register_err
    then ((handle_add_response t frame.payload (some (refused frame.payload))).0, goes_on)
    else if frame.type == msg_unregister_ok
    then (handle_del_response t none, goes_on)
    else if frame.type == msg_unregister_err
    then (handle_del_response t (some (refused frame.payload)), goes_on)
    else if frame.type == msg_tcp_open
    then (t, opens frame)
    else if frame.type == msg_stream_data
    then (handle_stream_data t writes frame, goes_on)
    else if frame.type == msg_stream_close
    then (handle_stream_close t frame, goes_on)
    else if frame.type == msg_error
    then ((handle_add_response t frame.payload (some (refused frame.payload))).0, goes_on)
    else if frame.type == msg_close_tunnel
    then (t, stops)
    else (t, goes_on)

-- The loop of Run: its goroutines are listed in the order in which they start. A message that does
-- not decode is passed over, and the end of the messages is a read error.
unfoldable pub run : Tunnel → Bool → List (List ℕ) → Tunnel × List Next
unfolding dispatch decode_frame
run t writes [] = (record t { done = true }, [])
run t writes (msg ∷ rest) = elim (decode_frame msg) [
  | err e ↦ run t writes rest
  | ok frame ↦
      let (t', next) = dispatch t writes frame in
      let (after, started) = run t' writes rest in
      elim next [
        | stops ↦ (record t' { done = true }, [])
        | goes_on ↦ (after, started)
        | serves f ↦ (after, serves f ∷ started)
        | opens f ↦ (after, opens f ∷ started)
      ]
]

unfoldable pub close_relays : List ℕ → Tunnel → Tunnel
unfolding update_relay
close_relays [] t = t
close_relays (id ∷ ids) t = close_relays ids (update_relay id close_relay t)

-- Close of a tunnel that is connected.
unfoldable pub close : Tunnel → Tunnel
unfolding close_relays write_frame
close t =
    let closed = close_relays t.relays (record t { done = true }) in
    write_frame (record closed { relays = [] })
      (record { type = msg_close_tunnel; tunnel_id = 0; request_id = 0; payload = [] })

unfoldable pub public_url : List Forward → List ℕ
public_url [] = []
public_url (f ∷ []) = f.url
public_url (f ∷ g ∷ fs) = f.url ++ (codes ", " ++ public_url (g ∷ fs))

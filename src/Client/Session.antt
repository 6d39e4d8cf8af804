-- ===== src/Client/Session.antt =====
-- internal/client/tunnel.go: the connection to the server, from Connect over the frames that Run
-- reads to Close.
-- What the connection gives is an argument: the messages that are read, in order, and for each write
-- whether it succeeds; a connection with none left fails.
pub mod Connected
use vlgr.Prelude.{
  ℕ, Bool, true, false, List, [], ◌∷◌, ◌++◌, Option, none, some, ◌==◌, ◌||◌, if◌then◌else◌,
}
use vlgr.Prelude.Bytes.{codes}
use vlgr.Prelude.Outcome.{Outcome, ok, err, ◌>>=◌}
use vlgr.Protocol as Protocol
use vlgr.Protocol.{
  Frame, msg_auth, msg_auth_ok, msg_auth_err, msg_register, msg_register_ok, msg_register_err,
  msg_register_tcp, msg_register_tls, msg_http_req, msg_close_tunnel, msg_error, msg_stream_data,
  msg_stream_close, msg_unregister_ok, msg_unregister_err, msg_tcp_open,
}
use vlgr.Protocol.Auth.{encode_auth}
use vlgr.Protocol.Register.{encode_register, encode_register_tcp, decode_register_ok}
use vlgr.Protocol.Frames.{decode_frame}
use vlgr.Client.{
  Forward, Error, refused, Tunnel, write_frame, set_mapping, handle_add_response,
  handle_del_response,
}
use vlgr.Client.Streams.{handle_stream_data, handle_stream_close}

pub record TcpForward : Type 0 where
  pub local_port : ℕ
  pub remote_port : ℕ

pub record TlsForward : Type 0 where
  pub local_port : ℕ
  pub subdomain : List ℕ

-- The fields of a Tunnel that are set before Connect.
pub record Config : Type 0 where
  pub token : List ℕ
  pub ports : List ℕ
  pub subdomains : List (List ℕ)
  pub tcp_forwards : List TcpForward
  pub tls_forwards : List TlsForward

pub record Conn : Type 0 where
  pub incoming : List (List ℕ)
  pub writes : List Bool

pub data ConnectError : Type 0 where
  dial_failed send_failed read_failed : ConnectError
  encode_failed decode_failed payload_failed : Protocol.Error → ConnectError
  rejected register_failed : List ℕ → ConnectError
  unexpected_type : ℕ → ConnectError

abbrev frame_of : ℕ → List ℕ → Frame
frame_of type payload = record { type = type; tunnel_id = 0; request_id = 0; payload = payload }

unfoldable pub next_write : List Bool → Bool × List Bool
next_write [] = (false, [])
next_write (b ∷ bs) = (b, bs)

-- conn.WriteMessage of one frame.
unfoldable pub send : Tunnel → Conn → Frame → Tunnel × Conn × Bool
unfolding write_frame next_write
send t conn frame =
    let (writes, rest) = next_write conn.writes in
    (if writes then write_frame t frame else t, record conn { writes = rest }, writes)

-- conn.ReadMessage and DecodeFrame.
unfoldable pub receive : Conn → Conn × Outcome ConnectError Frame
unfolding decode_frame
receive conn = elim conn.incoming [
  | [] ↦ (conn, err read_failed)
  | msg ∷ rest ↦ (
    record conn { incoming = rest },
    elim (decode_frame msg) [ err e ↦ err (decode_failed e) | ok frame ↦ ok frame ],
  )
]

-- The checks of Connect on the answer to its MsgAuth. What DecodeAuthOK makes of the payload is only
-- logged.
unfoldable pub check_auth : Frame → Outcome ConnectError (Unit {0})
check_auth frame =
    if frame.type == msg_auth_err
    then err (rejected frame.payload)
    else if frame.type == msg_auth_ok
    then ok tt
    else err (unexpected_type frame.type)

-- The checks of registerOne on the answer.
unfoldable pub check_register : Frame → Outcome ConnectError (List ℕ × ℕ)
unfolding decode_register_ok
check_register frame =
    if frame.type == msg_register_err || frame.type == msg_error
    then err (register_failed frame.payload)
    else if frame.type == msg_register_ok
    then elim (decode_register_ok frame.payload) [ err e ↦ err (payload_failed e) | ok r ↦ ok r ]
    else err (unexpected_type frame.type)

unfoldable pub register_one :
    Tunnel → Conn → ℕ → List ℕ → Tunnel × Conn × Outcome ConnectError (List ℕ × ℕ)
unfolding send receive check_register
register_one t conn msg_type payload =
    let (t', conn', writes) = send t conn (frame_of msg_type payload) in
    let (conn'', answer) = receive conn' in
    if writes then (t', conn'', answer >>= check_register) else (t', conn', err send_failed)

-- One round of the three loops of Connect.
pub record Registration : Type 0 where
  pub msg_type : ℕ
  pub payload : Outcome Protocol.Error (List ℕ)
  pub port : ℕ
  pub scheme : List ℕ

unfoldable pub port_registrations : List ℕ → List (List ℕ) → List Registration
unfolding encode_register
port_registrations [] subs = []
port_registrations (port ∷ ports) [] =
    record { msg_type = msg_register; payload = encode_register port []; port = port; scheme = [] }
    ∷ port_registrations ports []
port_registrations (port ∷ ports) (s ∷ subs) =
    record { msg_type = msg_register; payload = encode_register port s; port = port; scheme = [] }
    ∷ port_registrations ports subs

unfoldable pub tcp_registrations : List TcpForward → List Registration
unfolding encode_register_tcp
tcp_registrations [] = []
tcp_registrations (tf ∷ rest) =
    record {
      msg_type = msg_register_tcp;
      payload = ok (encode_register_tcp tf.local_port tf.remote_port);
      port = tf.local_port;
      scheme = codes "tcp://";
    }
    ∷ tcp_registrations rest

unfoldable pub tls_registrations : List TlsForward → List Registration
unfolding encode_register
tls_registrations [] = []
tls_registrations (tf ∷ rest) =
    record {
      msg_type = msg_register_tls;
      payload = encode_register tf.local_port tf.subdomain;
      port = tf.local_port;
      scheme = codes "tls://";
    }
    ∷ tls_registrations rest

unfoldable pub register : Tunnel → Conn → Registration → Tunnel × Conn × Option ConnectError
unfolding register_one set_mapping
register t conn r = elim r.payload [
  | err e ↦ (t, conn, some (encode_failed e))
  | ok payload ↦
      let (t', conn', answer) = register_one t conn r.msg_type payload in
      elim answer [
        | err e ↦ (t', conn', some e)
        | ok (url, tunnel_id) ↦ (set_mapping t' tunnel_id r.port (r.scheme ++ url), conn', none)
      ]
]

-- `if err != nil { return err }`
abbrev pub stop_on :
    Option ConnectError
    → Tunnel
    → Conn
    → Tunnel × Conn × Option ConnectError
    → Tunnel × Conn × Option ConnectError
stop_on (some e) t conn rest = (t, conn, some e)
stop_on none t conn rest = rest

unfoldable pub register_all :
    Tunnel → Conn → List Registration → Tunnel × Conn × Option ConnectError
unfolding register
register_all t conn [] = (t, conn, none)
register_all t conn (r ∷ rs) =
    let (t', conn', failure) = register t conn r in
    stop_on failure t' conn' (register_all t' conn' rs)

unfoldable pub registrations : Config → List Registration
unfolding port_registrations tcp_registrations tls_registrations
registrations config =
    port_registrations config.ports config.subdomains
    ++ (tcp_registrations config.tcp_forwards ++ tls_registrations config.tls_forwards)

-- Connect when the dial has succeeded.
unfoldable pub authenticate : List ℕ → Config → Tunnel → Conn → Tunnel × Conn × Option ConnectError
unfolding encode_auth send receive check_auth
authenticate version config t conn = elim (encode_auth config.token version) [
  | err e ↦ (t, conn, some (encode_failed e))
  | ok payload ↦
      let (t', conn', writes) = send t conn (frame_of msg_auth payload) in
      let (conn'', answer) = receive conn' in
      (
        t',
        if writes then conn'' else conn',
        if writes
            then elim (answer >>= check_auth) [ err e ↦ some e | ok u ↦ none ]
            else some send_failed,
      )
]

unfoldable pub connect : List ℕ → Config → Tunnel → Option Conn → Tunnel × Option ConnectError
unfolding authenticate register_all registrations
connect version config t none = (t, some dial_failed)
connect version config t (some conn) =
    let (t', conn', failure) = authenticate version config t conn in
    let (t'', conn'', failure') =
      stop_on failure t' conn' (register_all t' conn' (registrations config)) in
    (t'', failure')

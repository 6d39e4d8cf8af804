-- ===== src/Protocol.antt =====
-- internal/protocol/protocol.go: the constants, the records and the errors of the wire protocol.
-- A Go string or byte slice is the list of its bytes; `nil` and the empty slice are one.
-- An error is named for its message; the numbers and the context that the message prints are
-- not kept.
pub mod Wire
pub mod Frames
pub mod Http
pub mod Register
pub mod Auth
pub mod Upgrade
use vlgr.Prelude.{ℕ, ◌+◌, ◌*◌, ◌^◌, Bool, List, ◌≤◌, ◌<◌}

abbrev pub msg_auth : ℕ
msg_auth = 0x01

abbrev pub msg_auth_ok : ℕ
msg_auth_ok = 0x02

abbrev pub msg_auth_err : ℕ
msg_auth_err = 0x03

abbrev pub msg_register : ℕ
msg_register = 0x04

abbrev pub msg_register_ok : ℕ
msg_register_ok = 0x05

abbrev pub msg_register_err : ℕ
msg_register_err = 0x06

abbrev pub msg_http_req : ℕ
msg_http_req = 0x07

abbrev pub msg_http_res : ℕ
msg_http_res = 0x08

abbrev pub msg_close_tunnel : ℕ
msg_close_tunnel = 0x09

abbrev pub msg_error : ℕ
msg_error = 0x0A

abbrev pub msg_stream_data : ℕ
msg_stream_data = 0x0B

abbrev pub msg_stream_close : ℕ
msg_stream_close = 0x0C

abbrev pub msg_unregister : ℕ
msg_unregister = 0x0D

abbrev pub msg_unregister_ok : ℕ
msg_unregister_ok = 0x0E

abbrev pub msg_unregister_err : ℕ
msg_unregister_err = 0x0F

abbrev pub msg_register_tcp : ℕ
msg_register_tcp = 0x10

abbrev pub msg_tcp_open : ℕ
msg_tcp_open = 0x11

abbrev pub msg_register_tls : ℕ
msg_register_tls = 0x12

abbrev pub header_size : ℕ
header_size = 21

abbrev pub max_body_size : ℕ
max_body_size = 32 * 2 ^ 20

abbrev pub max_frame_size : ℕ
max_frame_size = max_body_size + 2 * 2 ^ 20

abbrev pub inline_body_limit : ℕ
inline_body_limit = 4 * 2 ^ 20

abbrev pub max_headers : ℕ
max_headers = 256

abbrev pub max_values_per_header : ℕ
max_values_per_header = 64

abbrev pub max_tunnels_per_client : ℕ
max_tunnels_per_client = 20

abbrev pub streamed_body_len : ℕ
streamed_body_len = 0xFFFFFFFF

abbrev pub max_string_len : ℕ
max_string_len = 65535

abbrev pub max_subdomain_len : ℕ
max_subdomain_len = 63

abbrev pub max_version_len : ℕ
max_version_len = 255

pub record Frame : Type 0 where
  pub type : ℕ
  pub tunnel_id : ℕ
  pub request_id : ℕ
  pub payload : List ℕ

-- map[string][]string, in one order of iteration
abbrev pub Headers : Type 0
Headers = List (List ℕ × List (List ℕ))

pub record HttpRequest : Type 0 where
  pub method : List ℕ
  pub path : List ℕ
  pub headers : Headers
  pub body : List ℕ
  pub body_streamed : Bool

pub record HttpResponse : Type 0 where
  pub status_code : ℕ
  pub headers : Headers
  pub body : List ℕ
  pub body_streamed : Bool

pub data Error : Type 0 where
  eof string_too_long string_truncated : Error
  too_many_headers headers_do_not_fit too_many_values : Error
  body_too_large body_truncated : Error
  frame_too_short frame_too_large frame_truncated : Error
  subdomain_too_long register_too_short register_truncated : Error
  url_too_long register_ok_too_short register_ok_truncated : Error
  tcp_register_too_short version_too_long : Error

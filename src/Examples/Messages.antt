-- ===== src/Examples/Messages.antt =====
-- Messages of internal/protocol at concrete inputs.
use vlgr.Prelude.{ℕ, ◌+◌, ◌≡◌, ◌≤◌, refl, false, List, [], ◌∷◌, ◌++◌, arith, length, drop, bytes_eq}
use vlgr.Prelude.Outcome.{ok}
use vlgr.Prelude.Bytes.{codes, put_be, get_be}
use vlgr.Prelude.Assoc.{bytes_key, lookup, IsMap}
use vlgr.Prelude.Text.{equal_fold, fold_letters, lower}
use vlgr.Protocol.Wire.{read_uint, read_string, write_string}
use vlgr.Protocol.{Frame, HttpRequest, HttpResponse, Headers, max_frame_size}
use vlgr.Protocol.Frames.{encode_frame, decode_frame}
use vlgr.Protocol.Frames.RoundTrip.{IsFrame, decode_frame-encode_frame, encode_frame-decode_frame}
use vlgr.Protocol.Http.{
  encode_http_request, decode_http_request, encode_http_response, decode_http_response,
  read_headers, read_fields, read_body,
}
use vlgr.Protocol.Http.Fields.{IsReadable}
use vlgr.Protocol.Http.RoundTrip.{
  IsSendable, decode_http_request-encode_http_request, decode_http_response-encode_http_response,
}
use vlgr.Protocol.Http.Bounds.{decode_http_request-IsSendable}
use vlgr.Protocol.Register.{encode_register, decode_register}
use vlgr.Protocol.Register.RoundTrip.{decode_register-encode_register}
use vlgr.Protocol.Upgrade.Laws.{IsCanonical}

abbrev stream_frame : Frame
stream_frame = record { type = 0x0B; tunnel_id = 7; request_id = 300; payload = 1 ∷ 2 ∷ [] }

stream_frame-IsFrame : IsFrame stream_frame
stream_frame-IsFrame = record {
  type = omega arith;
  tunnel_id = omega arith;
  request_id = omega arith;
  payload = omega arith;
}

decode_frame-encode_frame_example :
    decode_frame (encode_frame stream_frame ++ 9 ∷ []) ≡ ok stream_frame
decode_frame-encode_frame_example =
    decode_frame-encode_frame stream_frame (9 ∷ []) stream_frame-IsFrame (omega arith)

abbrev auth_input : List ℕ
auth_input =
    1 ∷ 0 ∷ 0 ∷ 0 ∷ 0 ∷ 0 ∷ 0 ∷ 0 ∷ 0 ∷ 0 ∷ 0 ∷ 0 ∷ 0 ∷ 0 ∷ 0 ∷ 0 ∷ 5 ∷ 0 ∷ 0 ∷ 0 ∷ 1 ∷ 65 ∷ 66 ∷ []

abbrev auth_frame : Frame
auth_frame = record { type = 1; tunnel_id = 0; request_id = 5; payload = 65 ∷ [] }

auth_input-decodes : decode_frame auth_input ≡ ok auth_frame
unfolding decode_frame read_uint get_be
auth_input-decodes = refl

encode_frame-decode_frame_example :
    IsFrame auth_frame
    × (length auth_frame.payload ≤ max_frame_size)
    × (auth_input ≡ encode_frame auth_frame ++ drop (21 + length auth_frame.payload) auth_input)
encode_frame-decode_frame_example =
    encode_frame-decode_frame auth_input auth_frame (ground arith) auth_input-decodes

abbrev hosts : Headers
hosts = ((b'H' ∷ []), (b'a' ∷ []) ∷ []) ∷ []

abbrev pub request : HttpRequest
request = record {
  method = b'G' ∷ [];
  path = b'/' ∷ [];
  headers = hosts;
  body = 1 ∷ 2 ∷ [];
  body_streamed = false;
}

abbrev response : HttpResponse
response = record { status_code = 200; headers = hosts; body = 7 ∷ []; body_streamed = false }

hosts-IsReadable : IsReadable hosts
unfolding lookup
hosts-IsReadable = record { is_map = (refl, tt); few = omega arith; few_values = (omega arith, tt) }

pub request-IsSendable : IsSendable request
request-IsSendable = record {
  method = omega arith;
  path = omega arith;
  fields = ((omega arith, (omega arith, tt)), tt);
  readable = hosts-IsReadable;
  body = omega arith;
}

decode_http_request-encode_http_request_example :
    (b : List ℕ) × (encode_http_request request ≡ ok b)
    × (decode_http_request (b ++ 3 ∷ []) ≡ ok request)
decode_http_request-encode_http_request_example =
    decode_http_request-encode_http_request request (3 ∷ []) request-IsSendable

decode_http_response-encode_http_response_example :
    (b : List ℕ) × (encode_http_response response ≡ ok b)
    × (decode_http_response (b ++ 3 ∷ []) ≡ ok response)
decode_http_response-encode_http_response_example =
    decode_http_response-encode_http_response response (3 ∷ []) (record {
      status = omega arith;
      fields = ((omega arith, (omega arith, tt)), tt);
      readable = hosts-IsReadable;
      body = omega arith;
    })

abbrev pub response_input : List ℕ
response_input = 0 ∷ 200 ∷ 0 ∷ 0 ∷ 0 ∷ 0 ∷ 0 ∷ 0 ∷ 0 ∷ 1 ∷ 7 ∷ []

abbrev pub plain_response : HttpResponse
plain_response = record { status_code = 200; headers = []; body = 7 ∷ []; body_streamed = false }

pub response_input-decodes : decode_http_response response_input ≡ ok plain_response
unfolding decode_http_response read_headers read_fields read_body read_uint get_be
response_input-decodes = refl

decode_register-encode_register_example :
    (b : List ℕ) × (encode_register 80 (b'a' ∷ []) ≡ ok b)
    × (decode_register b ≡ ok (80, b'a' ∷ []))
decode_register-encode_register_example =
    decode_register-encode_register 80 (b'a' ∷ []) (omega arith) (omega arith)

abbrev pub upgrade : Headers
upgrade = (codes "Upgrade", codes "WebSocket" ∷ []) ∷ hosts

pub upgrade-IsCanonical : IsCanonical upgrade
unfolding equal_fold bytes_eq fold_letters lower
upgrade-IsCanonical = (refl, (refl, tt))

pub upgrade-IsMap : IsMap upgrade
unfolding lookup bytes_eq
upgrade-IsMap = (refl, (refl, tt))

abbrev token_field : List ℕ
token_field = 0 ∷ 1 ∷ b't' ∷ []

token_field-written : write_string (b't' ∷ []) ≡ ok token_field
unfolding write_string put_be
token_field-written = refl

abbrev request_input : List ℕ
request_input = 0 ∷ 1 ∷ b'G' ∷ 0 ∷ 1 ∷ b'/' ∷ 0 ∷ 0 ∷ 0 ∷ 0 ∷ 0 ∷ 0 ∷ 0 ∷ 1 ∷ 7 ∷ []

abbrev plain_request : HttpRequest
plain_request = record {
  method = b'G' ∷ [];
  path = b'/' ∷ [];
  headers = [];
  body = 7 ∷ [];
  body_streamed = false;
}

request_input-decodes : decode_http_request request_input ≡ ok plain_request
unfolding decode_http_request read_string read_headers read_fields read_body read_uint get_be
request_input-decodes = refl

decode_http_request-IsSendable_example : IsSendable plain_request
decode_http_request-IsSendable_example =
    decode_http_request-IsSendable request_input plain_request (ground arith) request_input-decodes

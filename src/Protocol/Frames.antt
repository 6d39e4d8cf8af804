-- ===== src/Protocol/Frames.antt =====
-- internal/protocol/protocol.go: EncodeFrame and DecodeFrame.
pub mod RoundTrip
use vlgr.Prelude.{ℕ, ◌+◌, List, ◌∷◌, ◌++◌, length, take, drop, get_or, ltb}
use vlgr.Prelude.Outcome.{Outcome, ok, ◌>>=◌, ◌>>◌, refuse_if}
use vlgr.Prelude.Bytes.{put_be, get_be}
use vlgr.Protocol.{
  Frame, Error, header_size, max_frame_size, frame_too_short, frame_too_large, frame_truncated,
}

unfoldable pub encode_frame : Frame → List ℕ
encode_frame f =
    f.type
    ∷ (put_be 8 f.tunnel_id
        ++ (put_be 8 f.request_id ++ (put_be 4 (length f.payload) ++ f.payload)))

-- A slice `data[i:j]` is `take (j - i) (drop i data)`. `21 + payloadLen` cannot wrap at 32 bits,
-- since the length is at most `max_frame_size` there.
unfoldable pub decode_frame : List ℕ → Outcome Error Frame
decode_frame input = do
  refuse_if (ltb (length input) header_size) frame_too_short
  let payload_len = get_be 0 (take 4 (drop 17 input))
  refuse_if (ltb max_frame_size payload_len) frame_too_large
  refuse_if (ltb (length input) (header_size + payload_len)) frame_truncated
  ok (record {
    type = get_or input 0 0;
    tunnel_id = get_be 0 (take 8 (drop 1 input));
    request_id = get_be 0 (take 8 (drop 9 input));
    payload = take payload_len (drop 21 input);
  })

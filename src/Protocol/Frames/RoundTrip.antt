-- ===== src/Protocol/Frames/RoundTrip.antt =====
-- EncodeFrame and DecodeFrame against each other.
use vlgr.Prelude.{
  ℕ, ◌+◌, ◌≤◌, ◌<◌, ◌^◌, ◌≡◌, refl, ap, ◌∙◌, List, [], ◌∷◌, ◌++◌, arith, length, length-append,
  take, drop, take-append, drop-append, drop-drop, take-append-drop, length-take, length-drop,
  All-take, All-drop, le→ltb, All,
}
use vlgr.Prelude.Outcome.{ok}
use vlgr.Prelude.Bytes.{
  IsByte, put_be, get_be, length-put_be, get_be-put_be, put_be-get_be, get_be-lt,
}
use vlgr.Protocol.{Frame, max_frame_size}
use mathlib.Core.List.{append_assoc}
use vlgr.Protocol.Frames.{encode_frame, decode_frame}

-- The fields fit the widths of the header.
pub record IsFrame (f : Frame) : Type 0 where
  pub type : f.type < 256
  pub tunnel_id : f.tunnel_id < 2 ^ 64
  pub request_id : f.request_id < 2 ^ 64
  pub payload : length f.payload < 2 ^ 32

-- The pieces of a header of known length, cut out again.
module _ (t : ℕ) (a b c p : List ℕ) (la : length a ≡ 8) (lb : length b ≡ 8)
    (lc : length c ≡ 4) where
  abbrev whole : List ℕ
  whole = t ∷ (a ++ (b ++ (c ++ p)))

  length-whole : length whole ≡ 21 + length p
  length-whole =
      omega (arith, length-append a (b ++ (c ++ p)), length-append b (c ++ p), length-append c p)

  tunnel_part : take 8 (drop 1 whole) ≡ a
  tunnel_part = take-append 8 a (b ++ (c ++ p)) la

  request_part : take 8 (drop 9 whole) ≡ b
  request_part = rw (drop-append 8 0 a (b ++ (c ++ p)) (omega arith)) (take-append 8 b (c ++ p) lb)

  length_part : take 4 (drop 17 whole) ≡ c
  length_part =
      rw
        (drop-append 16 8 a (b ++ (c ++ p)) (omega arith), drop-append 8 0 b (c ++ p) (omega arith))
        (take-append 4 c p lc)

  payload_part : drop 21 whole ≡ p
  payload_part = rw (
    drop-append 20 12 a (b ++ (c ++ p)) (omega arith),
    drop-append 12 4 b (c ++ p) (omega arith),
    drop-append 4 0 c p (omega arith),
  )

  decode_whole :
      get_be 0 c ≤ max_frame_size
      → get_be 0 c ≤ length p
      → decode_frame whole
        ≡ ok (record {
          type = t;
          tunnel_id = get_be 0 a;
          request_id = get_be 0 b;
          payload = take (get_be 0 c) p;
        })
  unfolding decode_frame
  decode_whole small there = rw (
    length_part,
    tunnel_part,
    request_part,
    payload_part,
    le→ltb (length whole) 21 (omega (arith, length-whole)),
    le→ltb max_frame_size (get_be 0 c) small,
    le→ltb (length whole) (21 + get_be 0 c) (omega (arith, length-whole)),
  )

-- Decoding an encoded frame, whatever bytes follow it, gives the frame back, if its fields fit
-- the header's widths and its payload is within the frame limit.
pub decode_frame-encode_frame :
    (f : Frame) (more : List ℕ)
    → IsFrame f
    → length f.payload ≤ max_frame_size
    → decode_frame (encode_frame f ++ more) ≡ ok f
unfolding encode_frame
decode_frame-encode_frame f more h small =
    let tid = put_be 8 f.tunnel_id in
    let rid = put_be 8 f.request_id in
    let len = put_be 4 (length f.payload) in
    let len_eq = get_be-put_be 4 (length f.payload) h.payload in
    simp append_assoc (
      decode_whole f.type tid rid len (f.payload ++ more) (length-put_be 8 f.tunnel_id)
        (length-put_be 8 f.request_id) (length-put_be 4 (length f.payload)) (rw len_eq small)
        (rw len_eq (omega (arith, length-append f.payload more)))
      ∙ rw (
        len_eq,
        get_be-put_be 8 f.tunnel_id h.tunnel_id,
        get_be-put_be 8 f.request_id h.request_id,
        take-append (length f.payload) f.payload more refl,
      ))

-- A list of at least 20 bytes as its three header fields and what follows.
split_header :
    (xs : List ℕ) → xs ≡ take 8 xs ++ (take 8 (drop 8 xs) ++ (take 4 (drop 16 xs) ++ drop 20 xs))
split_header xs = rw (
  ← drop-drop 16 4 20 xs refl,
  take-append-drop 4 (drop 16 xs),
  ← drop-drop 8 8 16 xs refl,
  take-append-drop 8 (drop 8 xs),
  take-append-drop 8 xs,
)

-- The fields of a header over the bytes behind the type.
module _ (t : ℕ) (xs : List ℕ) where
  abbrev a : List ℕ
  a = take 8 xs

  abbrev b : List ℕ
  b = take 8 (drop 8 xs)

  abbrev c : List ℕ
  c = take 4 (drop 16 xs)

  decode_frame_inv :
      (f : Frame)
      → decode_frame (t ∷ xs) ≡ ok f
      → (20 + get_be 0 c ≤ length xs)
        × (get_be 0 c ≤ max_frame_size)
        × (f ≡ record {
          type = t;
          tunnel_id = get_be 0 a;
          request_id = get_be 0 b;
          payload = take (get_be 0 c) (drop 20 xs);
        })
  unfolding decode_frame
  decode_frame_inv f h = ground arith

  -- The lengths of the parts, and that they hold bytes.
  parts :
      20 ≤ length xs
      → All IsByte xs
      → ((length a ≡ 8) × (length b ≡ 8) × (length c ≡ 4))
        × (All IsByte a × All IsByte b × All IsByte c)
  parts h bytes =
      let behind = All-drop IsByte 8 xs bytes in
      let late = All-drop IsByte 16 xs bytes in
      (
        (
          omega (arith, length-take 8 xs),
          omega (arith, length-take 8 (drop 8 xs), length-drop 8 xs),
          omega (arith, length-take 4 (drop 16 xs), length-drop 16 xs),
        ),
        (All-take IsByte 8 xs bytes, All-take IsByte 8 _ behind, All-take IsByte 4 _ late),
      )

  -- The header's bytes and the payload, put together again.
  rejoin :
      (n : ℕ) → t ∷ xs ≡ (t ∷ (a ++ (b ++ (c ++ take n (drop 20 xs))))) ++ drop (21 + n) (t ∷ xs)
  rejoin n = rw (← drop-drop 21 n (21 + n) (t ∷ xs) refl) (
      simp append_assoc
        (rw (take-append-drop n (drop 20 xs)) (ap (λ (l : List ℕ). t ∷ l) (split_header xs))))

-- Every frame that decodes fits its widths and the limit, and the input begins with its encoding.
pub encode_frame-decode_frame :
    (input : List ℕ) (f : Frame)
    → All IsByte input
    → decode_frame input ≡ ok f
    → IsFrame f
      × (length f.payload ≤ max_frame_size)
      × (input ≡ encode_frame f ++ drop (21 + length f.payload) input)
unfolding encode_frame
encode_frame-decode_frame [] f bytes h = unfold decode_frame in cc
encode_frame-decode_frame (t ∷ xs) f bytes h =
    let (long, small, e) = decode_frame_inv t xs f h in
    let ((la, lb, lc), (ba, bb, bc)) = parts t xs (omega arith) bytes.1 in
    let lp : length (take (get_be 0 (c t xs)) (drop 20 xs)) ≡ get_be 0 (c t xs) =
      omega (arith, length-take (get_be 0 (c t xs)) (drop 20 xs), length-drop 20 xs) in
    rw (e, lp)
      (
        record {
          type = bytes.0;
          tunnel_id = get_be-lt 8 (a t xs) la ba;
          request_id = get_be-lt 8 (b t xs) lb bb;
          payload = omega (arith, lp, small);
        },
        small,
        rw
            (
              put_be-get_be 8 (a t xs) la ba,
              put_be-get_be 8 (b t xs) lb bb,
              put_be-get_be 4 (c t xs) lc bc,
            )
            (rejoin t xs (get_be 0 (c t xs))),
      )

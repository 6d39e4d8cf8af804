-- ===== src/Server/Passthrough/Carried.antt =====
-- The bytes that reach the client.
use vlgr.Prelude.{
  ℕ, ◌≡◌, refl, ◌∙◌, sym, ap, Bool, true, false, not, ◌&&◌, List, [], ◌∷◌, ◌++◌, arith, all, length,
  ltb, ◌==◌, if◌then◌else◌,
}
use mathlib.Core.List.{append_assoc, append-nil}
use vlgr.Protocol.{msg_stream_data}
use vlgr.Server.Handler.State.{World, Sent, Payload, bytes, text, write_message}
use vlgr.Server.Handler.Requests.{finish_forward, send_stream_close, remove_pending}
use vlgr.Server.Passthrough.{
  Read, send_stream_data, pump_rest, pump_request_body, pump_public, relay_public_conn,
}

abbrev bytes_of : Payload → List ℕ
bytes_of (bytes b) = b
bytes_of (text t) = []

-- The bytes of a request's stream, in the order in which they were sent.
abbrev part : ℕ → Sent → List ℕ
part id s = if s.type == msg_stream_data && s.request_id == id then bytes_of s.payload else []

unfoldable pub stream_bytes : ℕ → List Sent → List ℕ
stream_bytes id [] = []
stream_bytes id (s ∷ ss) = part id s ++ stream_bytes id ss

abbrev pub whole : List Read → List ℕ
whole [] = []
whole (r ∷ rs) = r.data_ ++ whole rs

abbrev pub goes_well : Read → Bool
goes_well r = not r.stopped && r.writes

stream_bytes-append :
    (id : ℕ) (ss : List Sent) (s : Sent)
    → stream_bytes id (ss ++ s ∷ []) ≡ stream_bytes id ss ++ part id s
unfolding stream_bytes
stream_bytes-append id [] s = append-nil (part id s)
stream_bytes-append id (x ∷ ss) s =
    ap (λ bs. part id x ++ bs) (stream_bytes-append id ss s) ∙ sym (append_assoc (part id x) _ _)

pub send_stream_data-bytes :
    (w : World) (id : ℕ) (data_ : List ℕ)
    → stream_bytes id (send_stream_data w id data_).sent ≡ stream_bytes id w.sent ++ data_
unfolding send_stream_data write_message
send_stream_data-bytes w id data_ =
    let same : (id == id) ≡ true = ground arith in stream_bytes-append id w.sent _ ∙ rw same refl

pub send_stream_close-bytes :
    (w : World) (id i : ℕ) → stream_bytes id (send_stream_close w i).sent ≡ stream_bytes id w.sent
unfolding send_stream_close write_message
send_stream_close-bytes w id i =
    stream_bytes-append id w.sent _ ∙ append-nil (stream_bytes id w.sent)

-- One round, where an empty read sends nothing.
sent_unless_empty :
    (w : World) (id : ℕ) (data_ : List ℕ)
    → stream_bytes id (if ltb 0 (length data_) then send_stream_data w id data_ else w).sent
      ≡ stream_bytes id w.sent ++ data_
sent_unless_empty w id [] = sym (append-nil (stream_bytes id w.sent))
sent_unless_empty w id (b ∷ bs) =
    let some_ : ltb 0 (length (b ∷ bs)) ≡ true = ground arith in
    rw some_ (send_stream_data-bytes w id (b ∷ bs))

pump_rest-bytes :
    (reads : List Read) (w : World) (id : ℕ)
    → all goes_well reads ≡ true
    → stream_bytes id (pump_rest w id reads).sent ≡ stream_bytes id w.sent ++ whole reads
unfolding pump_rest
pump_rest-bytes [] w id h = sym (append-nil (stream_bytes id w.sent))
pump_rest-bytes (r ∷ rs) w id h =
    let goes : r.stopped ≡ false = ground (arith, h) in
    let writes : r.writes ≡ true = ground (arith, h) in
    let w' = if ltb 0 (length r.data_) then send_stream_data w id r.data_ else w in
    let never : (ltb 0 (length r.data_) && not r.writes) ≡ false = ground (arith, writes) in
    rw (goes, pump_rest)
      (rw (never, pump_rest)
        (pump_rest-bytes rs w' id (ground (arith, h))
          ∙ ap (λ bs. bs ++ whole rs) (sent_unless_empty w id r.data_)
          ∙ append_assoc (stream_bytes id w.sent) r.data_ (whole rs)))

pump_public-bytes :
    (reads : List Read) (w : World) (id : ℕ)
    → all goes_well reads ≡ true
    → stream_bytes id (pump_public w id reads).sent ≡ stream_bytes id w.sent ++ whole reads
unfolding pump_public
pump_public-bytes [] w id h = sym (append-nil (stream_bytes id w.sent))
pump_public-bytes (r ∷ rs) w id h =
    let writes : r.writes ≡ true = ground (arith, h) in
    let w' = if ltb 0 (length r.data_) then send_stream_data w id r.data_ else w in
    let never : (ltb 0 (length r.data_) && not r.writes) ≡ false = ground (arith, writes) in
    rw (never, pump_public)
      (pump_public-bytes rs w' id (ground (arith, h))
        ∙ ap (λ bs. bs ++ whole rs) (sent_unless_empty w id r.data_)
        ∙ append_assoc (stream_bytes id w.sent) r.data_ (whole rs))

-- While no write fails and the request is not done, the stream of a request's body is the prefix that
-- was read and everything that was read after it, in order and nothing else.
pump_request_body-bytes :
    (w : World) (id : ℕ) (prefix : List ℕ) (reads : List Read)
    → all goes_well reads ≡ true
    → stream_bytes id (pump_request_body w id prefix true reads).sent
      ≡ stream_bytes id w.sent ++ (prefix ++ whole reads)
unfolding pump_request_body
pump_request_body-bytes w id prefix reads h =
    send_stream_close-bytes (pump_rest (send_stream_data w id prefix) id reads) id id
    ∙ pump_rest-bytes reads (send_stream_data w id prefix) id h
    ∙ ap (λ bs. bs ++ whole reads) (send_stream_data-bytes w id prefix)
    ∙ append_assoc (stream_bytes id w.sent) prefix (whole reads)

-- When the client has confirmed and no write fails, the stream of a public connection is the bytes
-- that were peeked and everything that was read after them, in order and nothing else.
pub relay_public_conn-bytes :
    (w : World) (id : ℕ) (prefix : List ℕ) (reads : List Read)
    → all goes_well reads ≡ true
    → stream_bytes id (relay_public_conn w id true prefix true reads).sent
      ≡ stream_bytes id w.sent ++ (prefix ++ whole reads)
unfolding relay_public_conn finish_forward remove_pending
relay_public_conn-bytes w id prefix reads h =
    let begun : World = if ltb 0 (length prefix) then send_stream_data w id prefix else w in
    let never : (ltb 0 (length prefix) && false) ≡ false = ground arith in
    rw (never) (
      send_stream_close-bytes (pump_public begun id reads) id id
      ∙ pump_public-bytes reads begun id h
      ∙ ap (λ bs. bs ++ whole reads) (sent_unless_empty w id prefix)
      ∙ append_assoc (stream_bytes id w.sent) prefix (whole reads))

-- ===== src/Server/Handler/Requests/Delivery.antt =====
-- Which request a frame of the client reaches.
use vlgr.Prelude.{
  ℕ, ◌+◌, ◌%◌, ◌^◌, ◌≡◌, ◌≢◌, refl, Bool, true, false, not, ◌&&◌, ◌||◌, List, [], ◌∷◌, ◌++◌, Option,
  some, arith, all, length, ltb, ◌==◌, Bool-cases, Option-cases, inl, inr, if◌then◌else◌,
}
use vlgr.Prelude.Assoc.{nat_key, lookup, lookup-insert}
use vlgr.Prelude.Outcome.{ok, Outcome-cases}
use vlgr.Protocol.{Frame, HttpRequest, HttpResponse, max_frame_size}
use vlgr.Protocol.Http.{encode_http_request, decode_http_response}
use vlgr.Server.Handler.State.{PendingReq, World, Env, write_message}
use vlgr.Server.Handler.Cleanup.{update_request}
use vlgr.Server.Handler.Requests.{
  is_pending, without, remove_pending, find_pending, handle_tcp_ready, deliver, take_out,
  send_response, handle_http_res, send_stream, send_stream_close, push_stream, handle_stream_data,
  handle_stream_close, new_pending, add_pending, start_forward, take_response, await_response,
}
use vlgr.Server.Handler.Requests.Pending.{is_pending-without, lookup-update_request}
use vlgr.Server.Handler.Requests.Acts.{
  Act, ready, stream_close, response, stream_data, start, await, push, put, finish, drain, take,
  remove, end, act, acts,
}

-- What a request is to those who look for it: its channels, and whether it is in h.pending.
pub record Same (id : ℕ) (w w' : World) : Type 0 where
  pub entry : lookup id w'.requests ≡ lookup id w.requests
  pub waits : is_pending id w'.pending ≡ is_pending id w.pending

if-Same :
    {id : ℕ} {w : World} (b : Bool) (x y : World)
    → Same id w x
    → Same id w y
    → Same id w (if b then x else y)
if-Same true x y hx hy = hx
if-Same false x y hx hy = hy

module _ (i id : ℕ) (w : World) (other : id ≢ i) where
  update-Same :
      (f : PendingReq → PendingReq)
      → lookup i (update_request id f w.requests) ≡ lookup i w.requests
  update-Same f = ground (arith, lookup-update_request i id f w.requests)

  without-Same : is_pending i (without id w.pending) ≡ is_pending i w.pending
  without-Same = ground (arith, is_pending-without i id w.pending)

  push_stream-Same :
      (env : Env) (pr : PendingReq) (payload : List ℕ) → Same i w (push_stream w env id pr payload)
  unfolding push_stream remove_pending send_stream_close write_message
  push_stream-Same env pr payload =
      if-Same pr.stream_closed _ _ (record { entry = refl; waits = refl })
        (if-Same (ltb (length pr.stream_data) 256 && (env.sends || not pr.done)) _ _
          (record { entry = update-Same _; waits = refl })
          (if-Same pr.done _ _ (record { entry = refl; waits = refl })
            (record { entry = update-Same _; waits = without-Same })))

handle_tcp_ready-Same :
    (i : ℕ) (w : World) (frame : Frame) → frame.request_id ≢ i → Same i w (handle_tcp_ready w frame)
unfolding handle_tcp_ready
handle_tcp_ready-Same i w frame other = elim (Option-cases (find_pending w frame.request_id)) [
  | inl e ↦ rw (e, handle_tcp_ready) (record { entry = refl; waits = refl })
  | inr (pr, e) ↦
      rw (e, handle_tcp_ready)
        (record { entry = update-Same i frame.request_id w other _; waits = refl })
]

deliver-Same :
    (i id : ℕ) (w v : World) (env : Env) (pr : PendingReq) (resp : HttpResponse)
    → id ≢ i
    → Same i w v
    → Same i w (deliver v env id pr resp)
unfolding deliver
deliver-Same i id w v env pr resp other h =
    if-Same (pr.has_response && (ltb (length pr.response) 1 && (env.sends || not pr.done))) _ _
      (record {
        entry = ground (
          arith,
          h.entry,
          update-Same i id v other (λ p. record p { response = p.response ++ resp ∷ [] }),
        );
        waits = h.waits;
      })
      h

send_response-Same :
    (i id : ℕ) (w v : World) (env : Env) (resp : HttpResponse)
    → id ≢ i
    → Same i w v
    → Same i w (send_response v env id resp)
unfolding send_response
send_response-Same i id w v env resp other h = elim (Option-cases (lookup id v.requests)) [
  | inl e ↦ rw (e, send_response) h
  | inr (pr, e) ↦ rw (e, send_response) (deliver-Same i id w v env pr resp other h)
]

take_out-Same : (i id : ℕ) (w : World) → id ≢ i → Same i w (take_out w id)
unfolding take_out remove_pending
take_out-Same i id w other = elim (Option-cases (lookup id w.requests)) [
  | inl e ↦ rw (e, take_out) (record { entry = refl; waits = refl })
  | inr (pr, e) ↦
      rw (e, take_out)
        (if-Same pr.has_stream w (remove_pending w id) (record { entry = refl; waits = refl })
          (record { entry = refl; waits = without-Same i id w other }))
]

handle_http_res-Same :
    (i : ℕ) (w : World) (env : Env) (frame : Frame)
    → frame.request_id ≢ i
    → Same i w (handle_http_res w env frame)
unfolding handle_http_res
handle_http_res-Same i w env frame other =
    elim (Outcome-cases (decode_http_response frame.payload)) [
      | inr (e, d) ↦ rw (d, handle_http_res) (record { entry = refl; waits = refl })
      | inl (resp, d) ↦
          rw (d, handle_http_res)
            (if-Same (is_pending frame.request_id w.pending) _ _
              (send_response-Same i frame.request_id w _ env resp other
                (take_out-Same i frame.request_id w other))
              (record { entry = refl; waits = refl }))
    ]

send_stream-Same :
    (i id : ℕ) (w : World) (env : Env) (payload : List ℕ)
    → id ≢ i
    → Same i w (send_stream w env id payload)
unfolding send_stream
send_stream-Same i id w env payload other = elim (Option-cases (lookup id w.requests)) [
  | inl e ↦ rw (e, send_stream) (record { entry = refl; waits = refl })
  | inr (pr, e) ↦
      rw (e, send_stream)
        (if-Same pr.has_stream _ _ (push_stream-Same i id w other env pr payload)
          (record { entry = refl; waits = refl }))
]

handle_stream_data-Same :
    (i : ℕ) (w : World) (env : Env) (frame : Frame)
    → frame.request_id ≢ i
    → Same i w (handle_stream_data w env frame)
unfolding handle_stream_data
handle_stream_data-Same i w env frame other =
    if-Same (is_pending frame.request_id w.pending) _ _
      (send_stream-Same i frame.request_id w env frame.payload other)
      (record { entry = refl; waits = refl })

handle_stream_close-Same :
    (i : ℕ) (w : World) (frame : Frame)
    → frame.request_id ≢ i
    → Same i w (handle_stream_close w frame)
unfolding handle_stream_close remove_pending
handle_stream_close-Same i w frame other = elim (Option-cases (find_pending w frame.request_id)) [
  | inl e ↦ rw (e, handle_stream_close) (record { entry = refl; waits = refl })
  | inr (pr, e) ↦
      rw (e, handle_stream_close)
        (if-Same pr.has_stream _ _
          (record {
            entry = update-Same i frame.request_id w other _;
            waits = without-Same i frame.request_id w other;
          })
          (record { entry = refl; waits = without-Same i frame.request_id w other }))
]

-- The steps of the reading loop that are for another request.
abbrev pub names_other : ℕ → Act → Bool
names_other i (ready frame) = not (frame.request_id == i)
names_other i (stream_close frame) = not (frame.request_id == i)
names_other i (response env frame) = not (frame.request_id == i)
names_other i (stream_data env frame) = not (frame.request_id == i)
names_other i (push env id payload) = not (id == i)
names_other i (put env id resp) = not (id == i)
names_other i (take id) = not (id == i)
names_other i (remove id) = not (id == i)
names_other i (start env tunnel_id req streamed) = false
names_other i (await timed_out id) = false
names_other i (finish id) = false
names_other i (drain id) = false
names_other i end = false

act-Same : (i : ℕ) (a : Act) (w : World) → names_other i a ≡ true → Same i w (act a w)
unfolding remove_pending
act-Same i (ready frame) w h = handle_tcp_ready-Same i w frame (ground arith)
act-Same i (stream_close frame) w h = handle_stream_close-Same i w frame (ground arith)
act-Same i (response env frame) w h = handle_http_res-Same i w env frame (ground arith)
act-Same i (stream_data env frame) w h = handle_stream_data-Same i w env frame (ground arith)
act-Same i (push env id payload) w h = send_stream-Same i id w env payload (ground arith)
act-Same i (put env id resp) w h =
    send_response-Same i id w w env resp (ground arith) (record { entry = refl; waits = refl })
act-Same i (take id) w h = take_out-Same i id w (ground arith)
act-Same i (remove id) w h = record { entry = refl; waits = without-Same i id w (ground arith) }
act-Same i (start env tunnel_id req streamed) w h = absurd (ground arith)
act-Same i (await timed_out id) w h = absurd (ground arith)
act-Same i (finish id) w h = absurd (ground arith)
act-Same i (drain id) w h = absurd (ground arith)
act-Same i end w h = absurd (ground arith)

Same-trans : {i : ℕ} {w v u : World} → Same i w v → Same i v u → Same i w u
Same-trans a b = record { entry = cc (a.entry, b.entry); waits = cc (a.waits, b.waits) }

acts-Same :
    (i : ℕ) (as_ : List Act) (w : World) → all (names_other i) as_ ≡ true → Same i w (acts as_ w)
acts-Same i [] w h = record { entry = refl; waits = refl }
acts-Same i (a ∷ as_) w h =
    Same-trans (act-Same i a w (ground (arith, h))) (acts-Same i as_ (act a w) (ground (arith, h)))

-- A request that waits for its response.
record Waits (streamed : Bool) (id : ℕ) (w : World) : Type 0 where
  entry : lookup id w.requests ≡ some (new_pending streamed)
  waits : is_pending id w.pending ≡ true

add_pending-Waits :
    (w : World) (streamed : Bool)
    → Waits streamed ((w.request_id_seq + 1) % 2 ^ 64) (add_pending w (new_pending streamed))
unfolding add_pending is_pending
add_pending-Waits w streamed =
    let id = (w.request_id_seq + 1) % 2 ^ 64 in
    record {
      entry = ground (arith, lookup-insert id id (new_pending streamed) w.requests);
      waits = ground arith;
    }

start_forward-Waits :
    (w : World) (env : Env) (tunnel_id : ℕ) (req : HttpRequest) (streamed : Bool) (id : ℕ)
    → (start_forward w env tunnel_id req streamed).1 ≡ ok id
    → Waits streamed id (start_forward w env tunnel_id req streamed).0
unfolding start_forward write_message add_pending
start_forward-Waits w env tunnel_id req streamed id h =
    let added = add_pending-Waits w streamed in
    elim (Outcome-cases (encode_http_request req)) [
      | inr (e, d) ↦ absurd (ground (arith, h, d))
      | inl (payload, d) ↦ elim (Bool-cases (ltb max_frame_size (length payload))) [
        | inl big ↦ absurd (ground (arith, h, d, big))
        | inr fits ↦ elim (Bool-cases env.writes) [
          | inr e ↦ absurd (ground (arith, h, d, fits, e))
          | inl e ↦
              let same : (w.request_id_seq + 1) % 2 ^ 64 ≡ id = ground (arith, h, d, fits, e) in
              rw (d, fits, e, start_forward)
                (rw (← same) (record { entry = added.entry; waits = added.waits }))
        ]
      ]
    ]

deliver-lookup :
    (w : World) (env : Env) (id : ℕ) (resp : HttpResponse) (streamed : Bool)
    → lookup id w.requests ≡ some (new_pending streamed)
    → lookup id (deliver w env id (new_pending streamed) resp).requests
      ≡ some (record (new_pending streamed) { response = resp ∷ [] })
unfolding deliver
deliver-lookup w env id resp streamed h = elim (Bool-cases env.sends) [
  | inl e ↦
      rw (e, deliver)
        (ground (
          arith,
          h,
          lookup-update_request id id (λ p. record p { response = p.response ++ resp ∷ [] })
              w.requests,
        ))
  | inr e ↦
      rw (e, deliver)
        (ground (
          arith,
          h,
          lookup-update_request id id (λ p. record p { response = p.response ++ resp ∷ [] })
              w.requests,
        ))
]

await_response-of_lookup :
    (w : World) (id : ℕ) (pr : PendingReq) (resp : HttpResponse)
    → lookup id w.requests ≡ some pr
    → pr.response ≡ resp ∷ []
    → (await_response w false id).1 ≡ ok resp
unfolding await_response take_response
await_response-of_lookup w id pr resp h e = rw (h, await_response) (rw e refl)

if-lookup :
    (b : Bool) (id : ℕ) (w : World) (o : Option PendingReq)
    → lookup id w.requests ≡ o
    → lookup id (if b then w else remove_pending w id).requests ≡ o
unfolding remove_pending
if-lookup true id w o h = h
if-lookup false id w o h = h

take_out-lookup :
    (w : World) (id : ℕ) (pr : PendingReq)
    → lookup id w.requests ≡ some pr
    → lookup id (take_out w id).requests ≡ some pr
unfolding take_out
take_out-lookup w id pr h = rw (h, take_out) (if-lookup pr.has_stream id w (some pr) h)

send_response-lookup :
    (w : World) (env : Env) (id : ℕ) (resp : HttpResponse) (streamed : Bool)
    → lookup id w.requests ≡ some (new_pending streamed)
    → lookup id (send_response w env id resp).requests
      ≡ some (record (new_pending streamed) { response = resp ∷ [] })
unfolding send_response
send_response-lookup w env id resp streamed h =
    rw (h, send_response) (deliver-lookup w env id resp streamed h)

response-taken :
    (w : World) (env : Env) (frame : Frame) (resp : HttpResponse) (streamed : Bool)
    → Waits streamed frame.request_id w
    → decode_http_response frame.payload ≡ ok resp
    → (await_response (handle_http_res w env frame) false frame.request_id).1 ≡ ok resp
unfolding handle_http_res
response-taken w env frame resp streamed h d =
    await_response-of_lookup (handle_http_res w env frame) frame.request_id
      (record (new_pending streamed) { response = resp ∷ [] }) resp
      (rw (d, handle_http_res)
        (rw h.waits (
          send_response-lookup (take_out w frame.request_id) env frame.request_id resp streamed
            (take_out-lookup w frame.request_id (new_pending streamed) h.entry))))
      refl

-- A request that startForward has sent gets the response that a frame with its id carries: after
-- any frames of the client for other requests, and unless the timer fires first, awaitResponse
-- returns what that frame decodes to.
pub await_response-start_forward :
    (w : World) (env : Env) (tunnel_id : ℕ) (req : HttpRequest) (streamed : Bool)
    (others : List Act) (env' : Env) (frame : Frame) (resp : HttpResponse)
    → (start_forward w env tunnel_id req streamed).1 ≡ ok frame.request_id
    → all (names_other frame.request_id) others ≡ true
    → decode_http_response frame.payload ≡ ok resp
    → (await_response
        (handle_http_res (acts others (start_forward w env tunnel_id req streamed).0) env' frame)
        false
        frame.request_id).1
      ≡ ok resp
await_response-start_forward w env tunnel_id req streamed others env' frame resp started far d =
    let h = start_forward-Waits w env tunnel_id req streamed frame.request_id started in
    let v : World = (start_forward w env tunnel_id req streamed).0 in
    let same = acts-Same frame.request_id others v far in
    response-taken (acts others v) env' frame resp streamed
      (record { entry = cc (same.entry, h.entry); waits = cc (same.waits, h.waits) }) d

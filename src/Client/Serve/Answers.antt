-- ===== src/Client/Serve/Answers.antt =====
-- What the server gets of a request, and what the client keeps of it.
use vlgr.Prelude.{
  ℕ, suc, ◌+◌, ◌%◌, ◌^◌, ◌≡◌, refl, Bool, true, false, List, inl, inr, if_elim, Option-cases, arith,
  length, take, ltb, leb, ◌==◌,
}
use vlgr.Prelude.Assoc.{nat_key}
use vlgr.Prelude.Ids.{has_id}
use vlgr.Prelude.Outcome.{Outcome, ok, err, Outcome-cases}
use vlgr.Protocol.{Frame, Headers, HttpRequest, inline_body_limit}
use vlgr.Protocol.Http.{decode_http_request}
use vlgr.Protocol.Upgrade.{is_websocket_upgrade_req}
use vlgr.Client.{Tunnel, port_for}
use vlgr.Client.Streams.{open_body, max_concurrent_relays}
use vlgr.Client.Serve.{
  local_request, Texts, LocalRequest, LocalResponse, Message, decode_failed, send_http_error, Begun,
  answered, release, begin_normal, begin_websocket, handle_http_req, begin_stream, respond,
  max_concurrent_local_reqs,
}
use vlgr.Client.Serve.Whole.{finish_upgrade, stream_rest, relay_rest, finish, serve}
use vlgr.Client.Serve.Accounts.{
  Accounts, answers, has_id_self, write_response-Accounts, pump_response-Accounts,
  pump_relay-Accounts,
}
use vlgr.Client.Serve.Ends.{
  release-Accounts, end_stream-Accounts, end_relay-Accounts, end_request-Accounts,
  open_body-Accounts, release_relay-Accounts,
}

-- What is left of the exchange, as a predicate of the state and of whether a body or a relay goes on.
module _ (frame : Frame) (m n k : ℕ) (b : Bool) (texts : Texts)
    (chunks : List (List ℕ × Bool)) where
  abbrev Streams : Tunnel × Bool → Type 0
  Streams p =
      Accounts frame.request_id (suc m) n k false b false
        (stream_rest p frame.tunnel_id frame.request_id chunks)

  abbrev Relays : Tunnel × Bool → Type 0
  Relays p =
      Accounts frame.request_id (suc m) n k false b false
        (relay_rest p frame.tunnel_id frame.request_id chunks)

  begin_stream-Accounts :
      (t : Tunnel) (status : ℕ) (headers : Headers)
      → Accounts frame.request_id m n k false b false t
      → Streams (begin_stream texts t frame.tunnel_id frame.request_id status headers)
  unfolding begin_stream stream_rest send_http_error
  begin_stream-Accounts t status headers a =
      if_elim Streams (leb max_concurrent_relays t.relay_count) _ _
        (write_response-Accounts texts t frame.tunnel_id _ a)
        (end_stream-Accounts {c = true} _ frame.tunnel_id (
          pump_response-Accounts chunks _ frame.tunnel_id frame.request_id (
            write_response-Accounts texts _ frame.tunnel_id _ (record {
              answered = a.answered;
              slots = a.slots;
              relay_slots = omega (arith, a.relay_slots);
              relay = a.relay;
              upload = a.upload;
              download = has_id_self frame.request_id t.resp_cancels;
            }))))

  respond-Accounts :
      (t : Tunnel) (answer : Outcome (List ℕ) LocalResponse)
      → Accounts frame.request_id m n k false b false t
      → Streams (respond texts t frame answer)
  unfolding respond stream_rest send_http_error
  respond-Accounts t (err msg) a = write_response-Accounts texts t frame.tunnel_id _ a
  respond-Accounts t (ok resp) a =
      if_elim Streams (ltb inline_body_limit (length (take (inline_body_limit + 1) resp.body))) _ _
        (begin_stream-Accounts t _ _ a) (write_response-Accounts texts t frame.tunnel_id _ a)

  finish_upgrade-Accounts :
      (t : Tunnel) (answer : Outcome (List ℕ) LocalResponse)
      → Accounts frame.request_id m (suc n) (suc k) false b false t
      → Relays (finish_upgrade texts t frame answer)
  unfolding finish_upgrade relay_rest send_http_error
  finish_upgrade-Accounts t (err msg) a =
      release_relay-Accounts frame _ (write_response-Accounts texts t frame.tunnel_id _ a)
  finish_upgrade-Accounts t (ok resp) a =
      let a' = write_response-Accounts texts t frame.tunnel_id _ a in
      if_elim Relays (resp.status_code % 2 ^ 16 == 101) _ _
        (end_relay-Accounts _ frame.tunnel_id (
          pump_relay-Accounts chunks _ frame.tunnel_id frame.request_id (
            release-Accounts {r = true} _ (record {
              answered = a'.answered;
              slots = a'.slots;
              relay_slots = a'.relay_slots;
              relay = has_id_self frame.request_id t.relays;
              upload = a'.upload;
              download = a'.download;
            }))))
        (release_relay-Accounts frame _ a')

module _ (texts : Texts) (answer : LocalRequest → Outcome (List ℕ) LocalResponse)
    (chunks : List (List ℕ × Bool)) (frame : Frame) (m n k : ℕ) where
  abbrev Finishes : Tunnel × Begun → Type 0
  Finishes p =
      Accounts frame.request_id (suc m) n k false false false (finish texts answer chunks frame p)

  fail-Accounts :
      (t : Tunnel) (status : ℕ) (message : Message)
      → Accounts frame.request_id m (suc n) k false false false t
      → Finishes (
        release (send_http_error texts t frame.tunnel_id frame.request_id status message),
        answered,
      )
  unfolding finish send_http_error
  fail-Accounts t status message a =
      release-Accounts _ (write_response-Accounts texts t frame.tunnel_id _ a)

  begin_normal-Accounts :
      (t : Tunnel) (req : HttpRequest)
      → Accounts frame.request_id m (suc n) k false false false t
      → Finishes (begin_normal texts t frame req)
  unfolding begin_normal finish open_body
  begin_normal-Accounts t req a = elim (Option-cases (port_for t frame.tunnel_id)) [
    | inl e ↦ rw (e, begin_normal) (fail-Accounts t 502 _ a)
    | inr (port, e) ↦
        rw (e, begin_normal)
          (end_request-Accounts frame _ req (
            respond-Accounts frame m (suc n) k req.body_streamed texts chunks _
              (answer (local_request texts port req))
              (open_body-Accounts frame req.body_streamed t a)))
  ]

  begin_websocket-Accounts :
      (t : Tunnel) (req : HttpRequest)
      → Accounts frame.request_id m (suc n) k false false false t
      → Finishes (begin_websocket texts t frame req)
  unfolding begin_websocket finish
  begin_websocket-Accounts t req a = elim (Option-cases (port_for t frame.tunnel_id)) [
    | inl e ↦ rw e (
        if_elim Finishes (leb max_concurrent_relays t.relay_count) _ _ (fail-Accounts t 503 _ a)
          (fail-Accounts t 502 _ a))
    | inr (port, e) ↦ rw e (
        if_elim Finishes (leb max_concurrent_relays t.relay_count) _ _ (fail-Accounts t 503 _ a) (
          finish_upgrade-Accounts frame m n k false texts chunks
            (record t { relay_count = t.relay_count + 1 }) (answer (local_request texts port req))
            (record {
              answered = a.answered;
              slots = a.slots;
              relay_slots = omega (arith, a.relay_slots);
              relay = a.relay;
              upload = a.upload;
              download = a.download;
            })))
  ]

  handle_http_req-Accounts :
      (t : Tunnel)
      → Accounts frame.request_id m n k false false false t
      → Finishes (handle_http_req texts t frame)
  unfolding handle_http_req finish send_http_error
  handle_http_req-Accounts t a =
      let t' : Tunnel = record t { local_requests = t.local_requests + 1 } in
      let a' : Accounts frame.request_id m (suc n) k false false false t' = record {
        answered = a.answered;
        slots = omega (arith, a.slots);
        relay_slots = a.relay_slots;
        relay = a.relay;
        upload = a.upload;
        download = a.download;
      } in
      if_elim Finishes (leb max_concurrent_local_reqs t.local_requests) _ _
        (write_response-Accounts texts t frame.tunnel_id _ a)
        (elim (Outcome-cases (decode_http_request frame.payload)) [
          | inr (e, failed) ↦ rw failed (fail-Accounts t' 502 (decode_failed e) a')
          | inl (req, decoded) ↦ rw decoded (
              if_elim Finishes (is_websocket_upgrade_req req.headers) _ _
                (begin_websocket-Accounts t' req a') (begin_normal-Accounts t' req a'))
        ])

-- A request that comes while nothing is registered under its id gets exactly one response frame with
-- that id, whatever its payload is and whatever the local service answers, its body streamed or its
-- connection upgraded or not; afterwards as many places of local requests and of relays are taken as
-- before, and no relay, body of an upload or cancel is registered under the id.
pub serve-Accounts :
    (texts : Texts) (answer : LocalRequest → Outcome (List ℕ) LocalResponse)
    (chunks : List (List ℕ × Bool)) (t : Tunnel) (frame : Frame)
    → has_id frame.request_id t.relays ≡ false
    → has_id frame.request_id t.body_streams ≡ false
    → has_id frame.request_id t.resp_cancels ≡ false
    → Accounts frame.request_id
        (answers frame.request_id t.sent + 1)
        t.local_requests
        t.relay_count
        false
        false
        false
        (serve texts answer chunks t frame)
unfolding serve
serve-Accounts texts answer chunks t frame relay upload download =
    let e : answers frame.request_id t.sent + 1 ≡ suc (answers frame.request_id t.sent) =
      omega arith in
    rw e (
      handle_http_req-Accounts texts answer chunks frame _ _ _ t (record {
        answered = refl;
        slots = refl;
        relay_slots = refl;
        relay = relay;
        upload = upload;
        download = download;
      }))

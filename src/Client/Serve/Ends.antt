-- ===== src/Client/Serve/Ends.antt =====
-- What the release of a place, of a relay and of a body does to what is kept of a request.
use vlgr.Prelude.{
  ℕ, suc, ◌-◌, refl, ◌∙◌, Bool, true, false, [], inl, inr, Bool-cases, Option-cases, arith,
  if◌then◌else◌,
}
use vlgr.Prelude.Assoc.{nat_key, lookup}
use vlgr.Prelude.Ids.{has_id-remove_id}
use vlgr.Protocol.{Frame, HttpRequest, msg_stream_close}
use vlgr.Client.{Tunnel, StreamRelay}
use vlgr.Client.Streams.{
  close_relay, end_relay, open_body, drop_body, send_stream_close, update_relay,
}
use vlgr.Client.Serve.{release, end_stream, end_request}
use vlgr.Client.Serve.Accounts.{Accounts, has_id_self, write_frame-Accounts}

module _ {id m n k : ℕ} {r b c : Bool} where
  pub release-Accounts :
      (t : Tunnel) → Accounts id m (suc n) k r b c t → Accounts id m n k r b c (release t)
  release-Accounts t a = record {
    answered = a.answered;
    slots = omega (arith, a.slots);
    relay_slots = a.relay_slots;
    relay = a.relay;
    upload = a.upload;
    download = a.download;
  }

  pub end_stream-Accounts :
      (t : Tunnel) (tunnel_id : ℕ)
      → Accounts id m n (suc k) r b c t
      → Accounts id m n k r b false (end_stream t tunnel_id id)
  unfolding end_stream send_stream_close
  end_stream-Accounts t tunnel_id a =
      let a' =
        write_frame-Accounts t
          (record { type = msg_stream_close; tunnel_id = tunnel_id; request_id = id; payload = [] })
          refl a in
      record {
        answered = a'.answered;
        slots = a'.slots;
        relay_slots = omega (arith, a'.relay_slots);
        relay = a'.relay;
        upload = a'.upload;
        download = has_id-remove_id id id t.resp_cancels ∙ ground arith;
      }

  update_relay-Accounts :
      (f : StreamRelay → StreamRelay) (t : Tunnel)
      → Accounts id m n k r b c t
      → Accounts id m n k r b c (update_relay id f t)
  unfolding update_relay
  update_relay-Accounts f t a = elim (Option-cases (lookup id t.relay_store)) [
    | inl e ↦ rw (e, update_relay) a
    | inr (relay, e) ↦
        rw (e, update_relay)
          (record {
            answered = a.answered;
            slots = a.slots;
            relay_slots = a.relay_slots;
            relay = a.relay;
            upload = a.upload;
            download = a.download;
          })
  ]

module _ {id m n k : ℕ} {r b c : Bool} where
  pub end_relay-Accounts :
      (t : Tunnel) (tunnel_id : ℕ)
      → Accounts id m n (suc k) r b c t
      → Accounts id m n k false b c (end_relay t tunnel_id id)
  unfolding end_relay send_stream_close
  end_relay-Accounts t tunnel_id a =
      let closed : Tunnel = update_relay id close_relay t in
      let a' = update_relay-Accounts close_relay t a in
      write_frame-Accounts _
        (record { type = msg_stream_close; tunnel_id = tunnel_id; request_id = id; payload = [] })
        refl
        (record {
          answered = a'.answered;
          slots = a'.slots;
          relay_slots = omega (arith, a'.relay_slots);
          relay = has_id-remove_id id id closed.relays ∙ ground arith;
          upload = a'.upload;
          download = a'.download;
        })

  drop_body-Accounts :
      (t : Tunnel) → Accounts id m n k r b c t → Accounts id m n k r false c (drop_body t id)
  unfolding drop_body
  drop_body-Accounts t a = record {
    answered = a.answered;
    slots = a.slots;
    relay_slots = a.relay_slots;
    relay = a.relay;
    upload = has_id-remove_id id id t.body_streams ∙ ground arith;
    download = a.download;
  }

module _ (frame : Frame) {m n k : ℕ} where
  pub end_request-Accounts :
      {r c : Bool} (t : Tunnel) (req : HttpRequest)
      → Accounts frame.request_id m (suc n) k r req.body_streamed c t
      → Accounts frame.request_id m n k r false c (end_request t frame req)
  unfolding end_request
  end_request-Accounts t req a = elim (Bool-cases req.body_streamed) [
    | inl e ↦ rw e (release-Accounts _ (drop_body-Accounts t a))
    | inr e ↦ rw e (release-Accounts t (rw (← e) a))
  ]

  pub open_body-Accounts :
      {r c : Bool} (streamed : Bool) (t : Tunnel)
      → Accounts frame.request_id m n k r false c t
      → Accounts frame.request_id m n k r streamed c
          (if streamed then open_body t frame.request_id else t)
  unfolding open_body
  open_body-Accounts false t a = a
  open_body-Accounts true t a = record {
    answered = a.answered;
    slots = a.slots;
    relay_slots = a.relay_slots;
    relay = a.relay;
    upload = has_id_self frame.request_id t.body_streams;
    download = a.download;
  }

  pub release_relay-Accounts :
      {r b c : Bool} (t : Tunnel)
      → Accounts frame.request_id m (suc n) (suc k) r b c t
      → Accounts frame.request_id m n k r b c
          (release (record t { relay_count = t.relay_count - 1 }))
  release_relay-Accounts t a = record {
    answered = a.answered;
    slots = omega (arith, a.slots);
    relay_slots = omega (arith, a.relay_slots);
    relay = a.relay;
    upload = a.upload;
    download = a.download;
  }

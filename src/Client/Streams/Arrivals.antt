-- ===== src/Client/Streams/Arrivals.antt =====
-- What handleStreamData and handleStreamClose do to the body of an upload.
use vlgr.Prelude.{ℕ, ◌≡◌, ◌≢◌, Bool, true, false, not, arith, Bool-cases, Option-cases, inl, inr}
use vlgr.Prelude.Assoc.{nat_key, lookup}
use vlgr.Prelude.Ids.{has_id, remove_id, has_id-remove_id}
use vlgr.Protocol.{Frame}
use vlgr.Client.{Tunnel, BodyStream}
use vlgr.Client.Streams.{handle_stream_data, handle_stream_close}
use vlgr.Client.Streams.Upload.{
  Has, Has-SameBodies, update_relay-SameBodies, update_body-lists, write_relay-SameBodies,
  lookup-update_body, body_arrive, body_shut, if-Has, push_body-Has, push_body-Has_other,
}

pub handle_stream_data-Has_other :
    (id : ℕ) (t : Tunnel) (bs : BodyStream) (writes : Bool) (frame : Frame)
    → frame.request_id ≢ id
    → Has id t bs
    → Has id (handle_stream_data t writes frame) bs
unfolding handle_stream_data
handle_stream_data-Has_other id t bs writes frame ne h =
    if-Has (has_id frame.request_id t.relays) _ _
      (Has-SameBodies (write_relay-SameBodies t writes frame.request_id frame.payload) h)
      (if-Has (not (has_id frame.request_id t.body_streams)) _ _ h
        (elim (Option-cases (lookup frame.request_id t.body_store)) [
          | inl e ↦ rw e h
          | inr (other, e) ↦
              rw e (push_body-Has_other id frame.request_id t bs other frame.payload ne h)
        ]))

pub handle_stream_data-Has :
    (t : Tunnel) (bs : BodyStream) (writes : Bool) (frame : Frame)
    → Has frame.request_id t bs
    → Has frame.request_id (handle_stream_data t writes frame) (body_arrive frame.payload bs)
unfolding handle_stream_data
handle_stream_data-Has t bs writes frame h = elim (Bool-cases bs.ch_closed) [
  | inl e ↦
      let gone : has_id frame.request_id t.body_streams ≡ false = ground (arith, h.listed, e) in
      rw (h.no_relay, gone) (ground (arith, e, h.stored, h.no_relay, h.listed))
  | inr e ↦
      let there : has_id frame.request_id t.body_streams ≡ true = ground (arith, h.listed, e) in
      rw (h.no_relay, there, h.stored) (push_body-Has frame.request_id t bs frame.payload e h)
]

pub handle_stream_close-Has_other :
    (id : ℕ) (t : Tunnel) (bs : BodyStream) (frame : Frame)
    → frame.request_id ≢ id
    → Has id t bs
    → Has id (handle_stream_close t frame) bs
unfolding handle_stream_close
handle_stream_close-Has_other id t bs frame ne h =
    let j : ℕ = frame.request_id in
    let less : Tunnel = record t { relays = remove_id j t.relays } in
    if-Has (has_id j t.relays) _ _
      (Has-SameBodies {t = less} (update_relay-SameBodies j _ _) (record {
        stored = h.stored;
        no_relay = ground (arith, h.no_relay, has_id-remove_id id j t.relays);
        listed = h.listed;
      }))
      (if-Has (has_id j t.body_streams) _ _
        (let t' : Tunnel = record t { body_streams = remove_id j t.body_streams } in
          let (relays, streams) = update_body-lists j body_shut t' in
          record {
            stored = ground (arith, lookup-update_body id j body_shut t', h.stored);
            no_relay = cc (relays, h.no_relay);
            listed = ground (arith, streams, h.listed, has_id-remove_id id j t.body_streams);
          })
        (if-Has (has_id j t.resp_cancels) _ _
          (record { stored = h.stored; no_relay = h.no_relay; listed = h.listed }) h))

pub handle_stream_close-Has :
    (t : Tunnel) (bs : BodyStream) (frame : Frame)
    → Has frame.request_id t bs
    → Has frame.request_id (handle_stream_close t frame) (body_shut bs)
unfolding handle_stream_close
handle_stream_close-Has t bs frame h = elim (Bool-cases bs.ch_closed) [
  | inl e ↦
      let gone : has_id frame.request_id t.body_streams ≡ false = ground (arith, h.listed, e) in
      rw (h.no_relay, gone)
        (if-Has (has_id frame.request_id t.resp_cancels) _ _
          (record { stored = ground (arith, h.stored, e); no_relay = h.no_relay; listed = gone })
          (record { stored = ground (arith, h.stored, e); no_relay = h.no_relay; listed = gone }))
  | inr e ↦
      let id : ℕ = frame.request_id in
      let there : has_id id t.body_streams ≡ true = ground (arith, h.listed, e) in
      let t' : Tunnel = record t { body_streams = remove_id id t.body_streams } in
      let (relays, streams) = update_body-lists id body_shut t' in
      rw (h.no_relay, there)
        (record {
          stored = ground (arith, lookup-update_body id id body_shut t', h.stored);
          no_relay = cc (relays, h.no_relay);
          listed = ground (arith, streams, has_id-remove_id id id t.body_streams);
        })
]

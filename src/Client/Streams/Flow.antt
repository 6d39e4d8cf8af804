-- ===== src/Client/Streams/Flow.antt =====
-- What a local request reads of its upload, against what the frames carried.
use vlgr.Prelude.{
  ℕ, ◌≡◌, refl, sym, ◌∙◌, Bool, true, false, List, [], ◌∷◌, ◌++◌, Option, arith, length, ltb, ◌==◌,
  Bool-cases, inl, inr, if◌then◌else◌,
}
use mathlib.Core.List.{append_assoc, append-nil}
use vlgr.Prelude.Assoc.{nat_key, lookup-insert}
use vlgr.Prelude.Ids.{has_id}
use vlgr.Protocol.{Frame}
use vlgr.Client.{Tunnel, BodyStream}
use vlgr.Client.Streams.{
  handle_stream_data, handle_stream_close, open_body, eof, read, stream_relay_buf,
}
use vlgr.Client.Streams.Upload.{
  Event, arrive, shut, take_bytes, Upload, bytes_of, read_upload, step, steps, fresh_upload,
  carried, Has, update_body-lists, lookup-update_body, body_arrive, body_shut,
}
use vlgr.Client.Streams.Arrivals.{
  handle_stream_data-Has_other, handle_stream_data-Has, handle_stream_close-Has_other,
  handle_stream_close-Has,
}
use vlgr.Client.Streams.Reading.{joined, joined-append, read-Reads}

-- The upload with its stream; when its last read was the end, nothing is left.
record Stage (id : ℕ) (u : Upload) (bs : BodyStream) : Type 0 where
  has : Has id u.tunnel bs
  ended : u.last ≡ eof → (u.rem ≡ []) × (bs.ch ≡ []) × (bs.ch_closed ≡ true) × (bs.aborted ≡ false)

abbrev flow : Upload → BodyStream → List ℕ
flow u bs = u.got ++ (u.rem ++ joined bs.ch)

abbrev still : ℕ → BodyStream → List Event → List ℕ
still id bs es = if bs.ch_closed then [] else carried id es

-- From the stream `bs` of `u`, before `es`, the stream `bs'` of `u'` is reached, before `es'`.
record Goes (id : ℕ) (u u' : Upload) (bs bs' : BodyStream) (es es' : List Event) : Type 0 where
  stage : Stage id u' bs'
  was_sound : bs'.aborted ≡ false → bs.aborted ≡ false
  balance : bs'.aborted ≡ false → flow u' bs' ++ still id bs' es' ≡ flow u bs ++ still id bs es

arrived-Goes :
    (u : Upload) (bs : BodyStream) (writes : Bool) (frame : Frame) (es : List Event)
    → Stage frame.request_id u bs
    → Goes frame.request_id u
        (step frame.request_id u (arrive writes frame))
        bs
        (body_arrive frame.payload bs)
        (arrive writes frame ∷ es)
        es
unfolding step carried
arrived-Goes u bs writes frame es h =
    let p : List ℕ = frame.payload in
    let id : ℕ = frame.request_id in
    let has' = handle_stream_data-Has u.tunnel bs writes frame h.has in
    elim (Bool-cases bs.ch_closed) [
      | inl e ↦ record {
        stage = record { has = has'; ended = λ x. ground (arith, h.ended x, e) };
        was_sound = λ a. ground (arith, a, e);
        balance = λ a. ground (arith, e);
      }
      | inr e ↦ elim (Bool-cases (ltb (length bs.ch) stream_relay_buf)) [
        | inr full ↦ record {
          stage = record { has = has'; ended = λ x. absurd (ground (arith, h.ended x, e)) };
          was_sound = λ a. absurd (ground (arith, a, e, full));
          balance = λ a. absurd (ground (arith, a, e, full));
        }
        | inl room ↦ record {
          stage = record { has = has'; ended = λ x. absurd (ground (arith, h.ended x, e)) };
          was_sound = λ a. ground (arith, a, e, room);
          balance = λ a. rw (e, room) (simp (joined-append, append_assoc) (ground (arith, e)));
        }
      ]
    ]

-- An event that leaves the stream alone, and carries nothing for it.
stays-Goes :
    (id : ℕ) (u : Upload) (t : Tunnel) (bs : BodyStream) (es es' : List Event)
    → Stage id u bs
    → Has id t bs
    → carried id es' ≡ carried id es
    → Goes id u (record u { tunnel = t }) bs bs es es'
stays-Goes id u t bs es es' h has' same = record {
  stage = record { has = has'; ended = h.ended };
  was_sound = λ a. a;
  balance = λ a. rw same refl;
}

shut-Goes :
    (u : Upload) (bs : BodyStream) (frame : Frame) (es : List Event)
    → Stage frame.request_id u bs
    → Goes frame.request_id u
        (step frame.request_id u (shut frame))
        bs
        (body_shut bs)
        (shut frame ∷ es)
        es
unfolding step carried
shut-Goes u bs frame es h = record {
  stage = record {
    has = handle_stream_close-Has u.tunnel bs frame h.has;
    ended = λ x. ((h.ended x).0, (h.ended x).1, refl, (h.ended x).3);
  };
  was_sound = λ a. a;
  balance = λ a. ground arith;
}

read-Goes :
    (id : ℕ) (u : Upload) (bs : BodyStream) (n : ℕ) (stops : Option ℕ) (es : List Event)
    → Stage id u bs
    → Goes id u (read_upload id u n stops) bs (read n stops bs u.rem).0 (take_bytes n stops ∷ es) es
unfolding read_upload carried
read-Goes id u bs n stops es h =
    let r = read-Reads n stops bs u.rem in
    let s' : BodyStream = (read n stops bs u.rem).0 in
    let (relays, streams) = update_body-lists id (λ b. s') u.tunnel in
    rw (h.has.stored, read_upload)
      (record {
        stage = record {
          has = record {
            stored =
                ground
                  (arith, lookup-update_body id id (λ (b : BodyStream). s') u.tunnel, h.has.stored);
            no_relay = cc (relays, h.has.no_relay);
            listed = cc (streams, h.has.listed, r.closed);
          };
          ended = λ x.
              let (none_left, empty, closed, sound) = r.at_eof x in
              (none_left, empty, r.closed ∙ closed, r.aborted ∙ sound);
        };
        was_sound = λ a. sym r.aborted ∙ a;
        balance = λ a.
            rw
              (append_assoc u.got (bytes_of (read n stops bs u.rem).2)
                ((read n stops bs u.rem).1 ++ joined s'.ch))
              (rw (r.keeps, r.closed) refl);
      })

step-Goes :
    (id : ℕ) (u : Upload) (bs : BodyStream) (e : Event) (es : List Event)
    → Stage id u bs
    → (bs' : BodyStream) × Goes id u (step id u e) bs bs' (e ∷ es) es
unfolding step carried
step-Goes id u bs (arrive writes frame) es h = elim (Bool-cases (frame.request_id == id)) [
  | inl e ↦
      let same : frame.request_id ≡ id = ground (arith, e) in
      (body_arrive frame.payload bs, rw (← same) (arrived-Goes u bs writes frame es (rw same h)))
  | inr e ↦ (
    bs,
    stays-Goes id u (handle_stream_data u.tunnel writes frame) bs (arrive writes frame ∷ es) es h
        (handle_stream_data-Has_other id u.tunnel bs writes frame (ground (arith, e)) h.has)
        (ground (arith, e)),
  )
]
step-Goes id u bs (shut frame) es h = elim (Bool-cases (frame.request_id == id)) [
  | inl e ↦
      let same : frame.request_id ≡ id = ground (arith, e) in
      (body_shut bs, rw (← same) (shut-Goes u bs frame es (rw same h)))
  | inr e ↦ (
    bs,
    stays-Goes id u (handle_stream_close u.tunnel frame) bs (shut frame ∷ es) es h
        (handle_stream_close-Has_other id u.tunnel bs frame (ground (arith, e)) h.has)
        (ground (arith, e)),
  )
]
step-Goes id u bs (take_bytes n stops) es h =
    ((read n stops bs u.rem).0, read-Goes id u bs n stops es h)

steps-Goes :
    (id : ℕ) (es : List Event) (u : Upload) (bs : BodyStream)
    → Stage id u bs
    → (bs' : BodyStream) × Goes id u (steps id u es) bs bs' es []
unfolding steps
steps-Goes id [] u bs h = (bs, record { stage = h; was_sound = λ a. a; balance = λ a. refl })
steps-Goes id (e ∷ es) u bs h =
    let (bs₁, one) = step-Goes id u bs e es h in
    let (bs₂, rest) = steps-Goes id es (step id u e) bs₁ one.stage in
    (
      bs₂,
      record {
        stage = rest.stage;
        was_sound = λ a. one.was_sound (rest.was_sound a);
        balance = λ a. rest.balance a ∙ one.balance (rest.was_sound a);
      },
    )

-- From the moment when a request has registered its upload, and with no relay of the same id:
-- whatever frames arrive and in whatever pieces the local request reads, when a read reports the
-- end, the bytes read are all that the frames carried for the upload up to the frame that ended it,
-- in order.
pub steps-eof :
    (t : Tunnel) (id : ℕ) (es : List Event)
    → has_id id t.relays ≡ false
    → (steps id (fresh_upload t id) es).last ≡ eof
    → (steps id (fresh_upload t id) es).got ≡ carried id es
unfolding open_body carried has_id
steps-eof t id es no_relay at_end =
    let fresh : BodyStream = record { ch = []; ch_closed = false; aborted = false } in
    let start : Stage id (fresh_upload t id) fresh = record {
      has = record {
        stored = ground (arith, lookup-insert id id fresh t.body_store);
        no_relay = no_relay;
        listed = ground arith;
      };
      ended = λ x. absurd (cc x);
    } in
    let (bs, end) = steps-Goes id es (fresh_upload t id) fresh start in
    let (none_left, empty, closed, sound) = end.stage.ended at_end in
    let final : Upload = steps id (fresh_upload t id) es in
    let all_read : flow final bs ≡ final.got = rw (none_left, empty) (append-nil final.got) in
    let all : final.got ++ [] ≡ carried id es = rw (all_read, closed) at (end.balance sound) in
    sym (append-nil final.got) ∙ all

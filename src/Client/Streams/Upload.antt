-- ===== src/Client/Streams/Upload.antt =====
-- The body of an upload, from the frames that carry it to the reads of the local request.
use vlgr.Prelude.{
  ℕ, ◌≡◌, ◌≢◌, Bool, true, false, not, List, [], ◌∷◌, ◌++◌, Option, none, some, arith, length, ltb,
  ◌==◌, Bool-cases, Option-cases, inl, inr, if◌then◌else◌,
}
use mathlib.Core.Option
use vlgr.Prelude.Assoc.{nat_key, lookup, lookup-insert}
use vlgr.Prelude.Ids.{has_id, remove_id, has_id-remove_id}
use vlgr.Protocol.{Frame}
use vlgr.Client.{Tunnel, StreamRelay, BodyStream}
use vlgr.Client.Streams.{
  update_relay, update_body, write_relay, push_body, handle_stream_data, handle_stream_close,
  open_body, ReadResult, bytes, eof, body_aborted, tunnel_closed, waits, read, stream_relay_buf,
}

-- What the reading loop and the local request of one upload do.
pub data Event : Type 0 where
  arrive : Bool → Frame → Event
  shut : Frame → Event
  take_bytes : ℕ → Option ℕ → Event

-- The client, what remains of the last chunk, what was read so far, and the last result.
pub record Upload : Type 0 where
  pub tunnel : Tunnel
  pub rem : List ℕ
  pub got : List ℕ
  pub last : ReadResult

abbrev pub bytes_of : ReadResult → List ℕ
bytes_of (bytes b) = b
bytes_of eof = []
bytes_of body_aborted = []
bytes_of tunnel_closed = []
bytes_of waits = []

unfoldable pub read_upload : ℕ → Upload → ℕ → Option ℕ → Upload
unfolding read lookup update_body
read_upload id u n stops = elim (lookup id u.tunnel.body_store) [
  | none ↦ u
  | some bs ↦
      let (bs', rem, res) = read n stops bs u.rem in
      record {
        tunnel = update_body id (λ b. bs') u.tunnel;
        rem = rem;
        got = u.got ++ bytes_of res;
        last = res;
      }
]

unfoldable pub step : ℕ → Upload → Event → Upload
unfolding handle_stream_data handle_stream_close read_upload
step id u (arrive writes frame) = record u { tunnel = handle_stream_data u.tunnel writes frame }
step id u (shut frame) = record u { tunnel = handle_stream_close u.tunnel frame }
step id u (take_bytes n stops) = read_upload id u n stops

unfoldable pub steps : ℕ → Upload → List Event → Upload
unfolding step
steps id u [] = u
steps id u (e ∷ es) = steps id (step id u e) es

-- The upload as it stands when its request has registered it.
abbrev pub fresh_upload : Tunnel → ℕ → Upload
fresh_upload t id = record { tunnel = open_body t id; rem = []; got = []; last = waits }

-- The bytes that the frames carry for the upload, up to the frame that ends it.
unfoldable pub carried : ℕ → List Event → List ℕ
carried id [] = []
carried id (arrive writes frame ∷ es) =
    let rest = carried id es in if frame.request_id == id then frame.payload ++ rest else rest
carried id (shut frame ∷ es) =
    let rest = carried id es in if frame.request_id == id then [] else rest
carried id (take_bytes n stops ∷ es) = carried id es

pub lookup-update_body :
    (i id : ℕ) (f : BodyStream → BodyStream) (t : Tunnel)
    → lookup i (update_body id f t).body_store
      ≡ (if id == i then Option.map f (lookup i t.body_store) else lookup i t.body_store)
unfolding update_body
lookup-update_body i id f t = elim (Option-cases (lookup id t.body_store)) [
  | inl e ↦ rw (e, update_body) (ground (arith, e))
  | inr (bs, e) ↦ rw (e, update_body) (ground (arith, e, lookup-insert id i (f bs) t.body_store))
]

-- The stream of the upload, as the client has it: while it is open, and only then, it is listed.
pub record Has (id : ℕ) (t : Tunnel) (bs : BodyStream) : Type 0 where
  pub stored : lookup id t.body_store ≡ some bs
  pub no_relay : has_id id t.relays ≡ false
  pub listed : has_id id t.body_streams ≡ not bs.ch_closed

-- What no operation on a relay changes.
pub record SameBodies (t t' : Tunnel) : Type 0 where
  pub relays : t'.relays ≡ t.relays
  pub streams : t'.body_streams ≡ t.body_streams
  pub store : t'.body_store ≡ t.body_store

pub update_relay-SameBodies :
    (id : ℕ) (f : StreamRelay → StreamRelay) (t : Tunnel) → SameBodies t (update_relay id f t)
unfolding update_relay
update_relay-SameBodies id f t = ground arith

pub update_body-lists :
    (id : ℕ) (f : BodyStream → BodyStream) (t : Tunnel)
    → ((update_body id f t).relays ≡ t.relays)
      × ((update_body id f t).body_streams ≡ t.body_streams)
unfolding update_body
update_body-lists id f t = ground arith

pub write_relay-SameBodies :
    (t : Tunnel) (writes : Bool) (id : ℕ) (payload : List ℕ)
    → SameBodies t (write_relay t writes id payload)
unfolding write_relay update_relay
write_relay-SameBodies t writes id payload = ground arith

-- The stream on its own: a chunk that arrives, and its end.
abbrev pub body_arrive : List ℕ → BodyStream → BodyStream
body_arrive payload s =
    if s.ch_closed
    then s
    else if ltb (length s.ch) stream_relay_buf
    then record s { ch = s.ch ++ payload ∷ [] }
    else record s { aborted = true; ch_closed = true }

abbrev pub body_shut : BodyStream → BodyStream
body_shut s = record s { ch_closed = true }

pub if-Has :
    {id : ℕ} {bs : BodyStream} (b : Bool) (x y : Tunnel)
    → Has id x bs
    → Has id y bs
    → Has id (if b then x else y) bs
if-Has true x y hx hy = hx
if-Has false x y hx hy = hy

pub Has-SameBodies :
    {id : ℕ} {t t' : Tunnel} {bs : BodyStream} → SameBodies t t' → Has id t bs → Has id t' bs
Has-SameBodies s h = record {
  stored = cc (s.store, h.stored);
  no_relay = cc (s.relays, h.no_relay);
  listed = cc (s.streams, h.listed);
}

pub push_body-Has_other :
    (id j : ℕ) (t : Tunnel) (bs other : BodyStream) (payload : List ℕ)
    → j ≢ id
    → Has id t bs
    → Has id (push_body t j other payload) bs
unfolding push_body
push_body-Has_other id j t bs other payload ne h =
    if-Has (ltb (length other.ch) stream_relay_buf) _ _
      (let f : BodyStream → BodyStream = λ b. record b { ch = b.ch ++ payload ∷ [] } in
        let (relays, streams) = update_body-lists j f t in
        record {
          stored = ground (arith, lookup-update_body id j f t, h.stored);
          no_relay = cc (relays, h.no_relay);
          listed = cc (streams, h.listed);
        })
      (let f : BodyStream → BodyStream = λ b. record b { aborted = true; ch_closed = true } in
        let t' : Tunnel = record t { body_streams = remove_id j t.body_streams } in
        let (relays, streams) = update_body-lists j f t' in
        record {
          stored = ground (arith, lookup-update_body id j f t', h.stored);
          no_relay = cc (relays, h.no_relay);
          listed = ground (arith, streams, h.listed, has_id-remove_id id j t.body_streams);
        })

pub push_body-Has :
    (id : ℕ) (t : Tunnel) (bs : BodyStream) (payload : List ℕ)
    → bs.ch_closed ≡ false
    → Has id t bs
    → Has id (push_body t id bs payload) (body_arrive payload bs)
unfolding push_body
push_body-Has id t bs payload open_ h = elim (Bool-cases (ltb (length bs.ch) stream_relay_buf)) [
  | inl room ↦
      let f : BodyStream → BodyStream = λ b. record b { ch = b.ch ++ payload ∷ [] } in
      let (relays, streams) = update_body-lists id f t in
      rw (room, open_)
        (record {
          stored = ground (arith, lookup-update_body id id f t, h.stored, open_);
          no_relay = cc (relays, h.no_relay);
          listed = cc (streams, h.listed, open_);
        })
  | inr full ↦
      let f : BodyStream → BodyStream = λ b. record b { aborted = true; ch_closed = true } in
      let t' : Tunnel = record t { body_streams = remove_id id t.body_streams } in
      let (relays, streams) = update_body-lists id f t' in
      rw (full, open_)
        (record {
          stored = ground (arith, lookup-update_body id id f t', h.stored);
          no_relay = cc (relays, h.no_relay);
          listed = ground (arith, streams, has_id-remove_id id id t.body_streams);
        })
]

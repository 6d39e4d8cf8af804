-- ===== src/Client/Serve/Accounts.antt =====
-- What the client keeps of one request, and what the frames of an answer do to it.
use vlgr.Prelude.{
  ℕ, suc, ◌≡◌, refl, ◌∙◌, Bool, true, false, ◌&&◌, ◌||◌, List, [], ◌∷◌, ◌++◌, if_elim, ap, arith,
  ◌==◌, if◌then◌else◌,
}
use vlgr.Prelude.Assoc.{nat_key}
use vlgr.Prelude.Ids.{has_id}
use vlgr.Protocol.{Frame, HttpResponse, msg_http_res}
use vlgr.Client.{Tunnel, write_frame}
use vlgr.Client.Streams.{relay_chunk}
use vlgr.Client.Serve.{Texts, write_response, send_chunk, pump_response}
use vlgr.Client.Serve.Whole.{pump_relay}

-- How many of the frames are responses to the request.
unfoldable pub answers : ℕ → List Frame → ℕ
answers id [] = 0
answers id (f ∷ fs) =
    let rest = answers id fs in
    if f.type == msg_http_res && f.request_id == id then suc rest else rest

-- The responses that a request has had, the places that are taken, and whether the client has
-- something registered under its id: a relay, a body, a cancel.
pub record Accounts (id m n k : ℕ) (r b c : Bool) (t : Tunnel) : Type 0 where
  pub answered : answers id t.sent ≡ m
  pub slots : t.local_requests ≡ n
  pub relay_slots : t.relay_count ≡ k
  pub relay : has_id id t.relays ≡ r
  pub upload : has_id id t.body_streams ≡ b
  pub download : has_id id t.resp_cancels ≡ c

answers-append :
    (id : ℕ) (fs : List Frame) (f : Frame)
    → answers id (fs ++ f ∷ []) ≡ (
        if f.type == msg_http_res && f.request_id == id then suc (answers id fs) else answers id fs)
unfolding answers
answers-append id [] f = refl
answers-append id (g ∷ fs) f = ground (arith, answers-append id fs f)

pub has_id_self : (id : ℕ) (ids : List ℕ) → has_id id (id ∷ ids) ≡ true
unfolding has_id
has_id_self id ids = ground arith

answers-append_response :
    (id : ℕ) (fs : List Frame) (f : Frame)
    → f.type ≡ msg_http_res
    → f.request_id ≡ id
    → answers id (fs ++ f ∷ []) ≡ suc (answers id fs)
answers-append_response id fs f typed named = ground (arith, answers-append id fs f)

module _ {id m n k : ℕ} {r b c : Bool} where
  pub write_frame-Accounts :
      (t : Tunnel) (f : Frame)
      → (f.type == msg_http_res) ≡ false
      → Accounts id m n k r b c t
      → Accounts id m n k r b c (write_frame t f)
  unfolding write_frame
  write_frame-Accounts t f other a = record {
    answered = ground (arith, answers-append id t.sent f, a.answered);
    slots = a.slots;
    relay_slots = a.relay_slots;
    relay = a.relay;
    upload = a.upload;
    download = a.download;
  }

  pub write_response-Accounts :
      (texts : Texts) (t : Tunnel) (tunnel_id : ℕ) (resp : HttpResponse)
      → Accounts id m n k r b c t
      → Accounts id (suc m) n k r b c (write_response texts t tunnel_id id resp)
  unfolding write_response write_frame
  write_response-Accounts texts t tunnel_id resp a = record {
    answered = answers-append_response id t.sent _ refl refl ∙ ap suc a.answered;
    slots = a.slots;
    relay_slots = a.relay_slots;
    relay = a.relay;
    upload = a.upload;
    download = a.download;
  }

  send_chunk-Accounts :
      (t : Tunnel) (tunnel_id request_id : ℕ) (chunk : List ℕ) (writes : Bool)
      → Accounts id m n k r b c t
      → Accounts id m n k r b c (send_chunk t tunnel_id request_id chunk writes).0
  unfolding send_chunk
  send_chunk-Accounts t tunnel_id request_id chunk writes a =
      if_elim (λ (p : Tunnel × Bool). Accounts id m n k r b c p.0)
        (has_id request_id t.cancelled || t.done) _ _ a (write_frame-Accounts t _ refl a)

  pub pump_response-Accounts :
      (chunks : List (List ℕ × Bool)) (t : Tunnel) (tunnel_id request_id : ℕ)
      → Accounts id m n k r b c t
      → Accounts id m n k r b c (pump_response t tunnel_id request_id chunks)
  unfolding pump_response
  pump_response-Accounts [] t tunnel_id request_id a = a
  pump_response-Accounts ((chunk, writes) ∷ rest) t tunnel_id request_id a =
      let a' = send_chunk-Accounts t tunnel_id request_id chunk writes a in
      if_elim (Accounts id m n k r b c) (send_chunk t tunnel_id request_id chunk writes).1 _ _
        (pump_response-Accounts rest _ tunnel_id request_id a') a'

  pub pump_relay-Accounts :
      (chunks : List (List ℕ × Bool)) (t : Tunnel) (tunnel_id request_id : ℕ)
      → Accounts id m n k r b c t
      → Accounts id m n k r b c (pump_relay t tunnel_id request_id chunks)
  unfolding pump_relay relay_chunk
  pump_relay-Accounts [] t tunnel_id request_id a = a
  pump_relay-Accounts ((chunk, writes) ∷ rest) t tunnel_id request_id a =
      let a' = write_frame-Accounts t _ refl a in
      if_elim (Accounts id m n k r b c) writes _ _
        (pump_relay-Accounts rest _ tunnel_id request_id a') a'

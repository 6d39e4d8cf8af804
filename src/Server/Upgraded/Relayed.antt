-- ===== src/Server/Upgraded/Relayed.antt =====
-- What the client gets of a connection that was upgraded.
use vlgr.Prelude.{
  ℕ, ◌≡◌, ◌∙◌, sym, ap, Bool, ◌&&◌, List, [], ◌∷◌, ◌++◌, Bool-cases, inl, inr, ◌==◌, if◌then◌else◌,
}
use mathlib.Core.List.{append_assoc, append-nil}
use vlgr.Protocol.{HttpResponse}
use vlgr.Server.Handler.State.{World}
use vlgr.Server.Handler.Requests.{finish_forward, remove_pending}
use vlgr.Server.Passthrough.{Read, send_stream_data}
use vlgr.Server.Passthrough.Carried.{stream_bytes, send_stream_data-bytes, send_stream_close-bytes}
use vlgr.Server.Upgraded.{pump_upgraded, serve_web_socket}

-- The bytes that were read up to and with the first that could not be sent.
abbrev pub up_to_failure : List Read → List ℕ
up_to_failure [] = []
up_to_failure (r ∷ rs) = let rest = up_to_failure rs in r.data_ ++ (if r.writes then rest else [])

abbrev pub if_switched : HttpResponse → Bool → Bool → List ℕ → List ℕ
if_switched resp hijacks flushes bs =
    if resp.status_code == 101 && hijacks && flushes then bs else []

pump_upgraded-bytes :
    (reads : List Read) (w : World) (id : ℕ)
    → stream_bytes id (pump_upgraded w id reads).sent
      ≡ stream_bytes id w.sent ++ up_to_failure reads
unfolding pump_upgraded
pump_upgraded-bytes [] w id =
    send_stream_close-bytes w id id ∙ sym (append-nil (stream_bytes id w.sent))
pump_upgraded-bytes (r ∷ rs) w id =
    let w' = send_stream_data w id r.data_ in
    elim (Bool-cases r.writes) [
      | inl e ↦
          rw (e, pump_upgraded)
            (pump_upgraded-bytes rs w' id
              ∙ ap (λ bs. bs ++ up_to_failure rs) (send_stream_data-bytes w id r.data_)
              ∙ append_assoc (stream_bytes id w.sent) r.data_ (up_to_failure rs))
      | inr e ↦
          rw (e, pump_upgraded)
            (send_stream_close-bytes w' id id
              ∙ send_stream_data-bytes w id r.data_
              ∙ ap (λ bs. stream_bytes id w.sent ++ bs) (sym (append-nil r.data_)))
    ]

-- Whatever the response is and whether or not the connection can be taken over: what the client gets
-- as the stream of the request is, where the upgrade succeeds, the bytes that were read up to and
-- with the first that could not be sent, in order, and nothing otherwise.
pub serve_web_socket-bytes :
    (canonical : List ℕ → List ℕ) (w : World) (id : ℕ) (resp : HttpResponse)
    (hijacks flushes : Bool) (reads : List Read) (chunks : List (List ℕ × Bool))
    → stream_bytes id (serve_web_socket canonical w id resp hijacks flushes reads chunks).0.sent
      ≡ stream_bytes id w.sent ++ if_switched resp hijacks flushes (up_to_failure reads)
unfolding serve_web_socket finish_forward remove_pending
serve_web_socket-bytes canonical w id resp hijacks flushes reads chunks =
    let none_ = sym (append-nil (stream_bytes id w.sent)) in
    elim (Bool-cases (resp.status_code == 101)) [
      | inr e ↦ rw (e, serve_web_socket) none_
      | inl e ↦ elim (Bool-cases hijacks) [
        | inr f ↦ rw (e, f, serve_web_socket) none_
        | inl f ↦ elim (Bool-cases flushes) [
          | inr g ↦ rw (e, f, g, serve_web_socket) none_
          | inl g ↦ rw (e, f, g, serve_web_socket) (pump_upgraded-bytes reads w id)
        ]
      ]
    ]

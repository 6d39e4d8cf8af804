-- ===== src/Client/Ports.antt =====
-- Adding and removing a port while the client runs.
use vlgr.Prelude.{ℕ, ◌≡◌, true, List, [], ◌∷◌, ◌++◌, none, some, arith}
use vlgr.Prelude.Outcome.{ok}
use vlgr.Protocol.Register.{encode_register, decode_register_ok}
use vlgr.Client.{
  Forward, Tunnel, set_mapping, without_first, remove_mapping, find_port, port_for, id_of_port,
  begin_add, handle_add_response, begin_remove, handle_del_response,
}

module _ (f : Forward) where
  find_port-append :
      (fs : List Forward)
      → find_port f.tunnel_id fs ≡ none
      → find_port f.tunnel_id (fs ++ f ∷ []) ≡ some f.port
  unfolding find_port
  find_port-append [] h = ground arith
  find_port-append (g ∷ fs) h = ground (arith, find_port-append fs)

  id_of_port-append :
      (fs : List Forward)
      → id_of_port f.port fs ≡ none
      → id_of_port f.port (fs ++ f ∷ []) ≡ some f.tunnel_id
  unfolding id_of_port
  id_of_port-append [] h = ground arith
  id_of_port-append (g ∷ fs) h = ground (arith, id_of_port-append fs)

  without_first-append :
      (fs : List Forward)
      → find_port f.tunnel_id fs ≡ none
      → without_first f.tunnel_id (fs ++ f ∷ []) ≡ fs
  unfolding find_port without_first
  without_first-append [] h = ground arith
  without_first-append (g ∷ fs) h = ground (arith, without_first-append fs)

-- A client that waits for no answer.
pub record Idle (t : Tunnel) : Type 0 where
  pub no_add : t.add_ch ≡ none
  pub no_del : t.del_ch ≡ none

module _ (t : Tunnel) (port : ℕ) (subdomain payload req url : List ℕ) (id : ℕ) where
  -- AddPort, and the answer to it.
  abbrev pub added : Tunnel
  added = (handle_add_response (begin_add t true port subdomain).0 payload none).0

  -- RemovePort, and the answer to it.
  abbrev pub removed : Tunnel
  removed = (handle_del_response (begin_remove added true port).0 none)

  added-forwards :
      Idle t
      → encode_register port subdomain ≡ ok req
      → decode_register_ok payload ≡ ok (url, id)
      → (added.forwards ≡ t.forwards ++ record { tunnel_id = id; port = port; url = url } ∷ [])
        × Idle added
  unfolding begin_add handle_add_response set_mapping
  added-forwards idle sent answered = (
    ground (arith, idle.no_add, sent, answered),
    record {
      no_add = ground (arith, idle.no_add, sent, answered);
      no_del = ground (arith, idle.no_add, idle.no_del, sent, answered);
    },
  )

removed-forwards :
    (t : Tunnel) (port id : ℕ) (fs : List Forward)
    → id_of_port port t.forwards ≡ some id
    → t.del_ch ≡ none
    → without_first id t.forwards ≡ fs
    → (handle_del_response (begin_remove t true port).0 none).forwards ≡ fs
unfolding begin_remove handle_del_response remove_mapping
removed-forwards t port id fs found idle left = ground (arith, found, idle, left)

-- Where no forward has the port or the id, no other answer is awaited, and the server answers both
-- requests without an error: a port that is added is found under its id, and when it is removed
-- again the forwards are what they were.
pub removed-added :
    (t : Tunnel) (port : ℕ) (subdomain payload req url : List ℕ) (id : ℕ)
    → Idle t
    → encode_register port subdomain ≡ ok req
    → decode_register_ok payload ≡ ok (url, id)
    → id_of_port port t.forwards ≡ none
    → find_port id t.forwards ≡ none
    → (port_for (added t port subdomain payload req url id) id ≡ some port)
      × ((removed t port subdomain payload req url id).forwards ≡ t.forwards)
unfolding port_for
removed-added t port subdomain payload req url id idle sent answered new_port new_id =
    let f : Forward = record { tunnel_id = id; port = port; url = url } in
    let (eq, idle') = added-forwards t port subdomain payload req url id idle sent answered in
    (
      rw eq (find_port-append f t.forwards new_id),
      removed-forwards (added t port subdomain payload req url id) port id t.forwards
          (rw eq (id_of_port-append f t.forwards new_port)) idle'.no_del
          (rw eq (without_first-append f t.forwards new_id)),
    )

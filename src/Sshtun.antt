-- ===== src/Sshtun.antt =====
-- internal/sshtun/server.go: the remote forwards of an SSH connection.
-- The pool of ports is the interface `PortAllocator` of the source. golang.org/x/crypto/ssh reads the
-- payload of a request: `unmarshal` is a parameter, as is `listens`, which says whether net.Listen
-- succeeds on a port. A listener is named by its port, so `forwards` has the keys of the map, and
-- `listeners` the ports that the process listens on.
pub mod Ports
pub mod Pool
use vlgr.Prelude.{
  ℕ, ◌%◌, ◌^◌, Bool, true, false, not, ◌||◌, List, [], ◌∷◌, ◌++◌, Option, none, some, ◌==◌,
  bytes_eq, if◌then◌else◌,
}
use vlgr.Prelude.Bytes.{codes}
use vlgr.Prelude.Ids.{has_id, remove_id}

-- The interface of the source, over the state of the pool; an error has no port.
pub record PortAllocator (S : Type 0) : Type 0 where
  pub allocate : S → ℕ → S × Option ℕ
  pub release : S → ℕ → S

pub record BindReq : Type 0 where
  pub addr : List ℕ
  pub port : ℕ

pub record Request : Type 0 where
  pub type : List ℕ
  pub want_reply : Bool
  pub payload : List ℕ

-- A call of Reply, with the port that it carries, if it has one.
pub record Reply : Type 0 where
  pub ok : Bool
  pub port : Option ℕ

pub record Session (S : Type 0) : Type 0 where
  pub alloc : S
  pub forwards : List ℕ
  pub listeners : List ℕ
  pub replies : List Reply

-- The password callback of New; without a token no client is asked for one.
unfoldable pub accepts : List ℕ → Option (List ℕ) → Bool
unfolding bytes_eq
accepts [] offered = true
accepts (c ∷ token) none = false
accepts (c ∷ token) (some pass) = bytes_eq pass (c ∷ token)

module _ {S : Type 0} (pool : PortAllocator S) (unmarshal : List ℕ → Option BindReq)
    (listens : ℕ → Bool) where
  abbrev pub reply : Session S → Bool → Option ℕ → Session S
  reply s ok port = record s { replies = s.replies ++ record { ok = ok; port = port } ∷ [] }

  -- ln.Close(), and the port goes back to the pool.
  abbrev pub close_forward : Session S → ℕ → Session S
  close_forward s port = record s {
    listeners = remove_id port s.listeners;
    alloc = pool.release s.alloc port;
  }

  -- net.Listen on a port that was allocated, and what follows.
  unfoldable pub listen_on : Session S → Request → ℕ → Session S
  unfolding remove_id
  listen_on s req port =
      if not (listens port)
      then reply (record s { alloc = pool.release s.alloc port }) false none
      else let s' : Session S = record s {
        forwards = port ∷ remove_id port s.forwards;
        listeners = port ∷ s.listeners;
      } in
        if req.want_reply then reply s' true (some port) else s'

  unfoldable pub start_forward : Session S → Request → Session S
  unfolding listen_on
  start_forward s req = elim (unmarshal req.payload) [
    | none ↦ reply s false none
    | some b ↦
        let (alloc, port) = pool.allocate s.alloc (b.port % 2 ^ 16) in
        let s' : Session S = record s { alloc = alloc } in
        elim port [ none ↦ reply s' false none | some p ↦ listen_on s' req p ]
  ]

  unfoldable pub cancel_port : Session S → ℕ → Session S
  unfolding has_id remove_id
  cancel_port s port =
      if has_id port s.forwards
      then record (close_forward s port) { forwards = remove_id port s.forwards }
      else s

  unfoldable pub cancel_forward : Session S → Request → Session S
  unfolding cancel_port
  cancel_forward s req =
      let s' : Session S = elim (unmarshal req.payload) [
        | none ↦ s
        | some b ↦ cancel_port s (b.port % 2 ^ 16)
      ] in
      if req.want_reply then reply s' true none else s'

  unfoldable pub handle_request : Session S → Request → Session S
  unfolding start_forward cancel_forward bytes_eq
  handle_request s req =
      if bytes_eq req.type (codes "tcpip-forward")
      then start_forward s req
      else if bytes_eq req.type (codes "cancel-tcpip-forward")
      then cancel_forward s req
      else if req.want_reply
      then reply s false none
      else s

  unfoldable pub handle_requests : Session S → List Request → Session S
  unfolding handle_request
  handle_requests s [] = s
  handle_requests s (req ∷ reqs) = handle_requests (handle_request s req) reqs

  -- The loop that is deferred.
  unfoldable pub close_all : Session S → List ℕ → Session S
  close_all s [] = s
  close_all s (port ∷ ports) = close_all (close_forward s port) ports

  -- handleGlobalRequests, from an empty map to the end of the connection.
  unfoldable pub handle_global_requests : S → List ℕ → List Request → Session S
  unfolding handle_requests close_all
  handle_global_requests alloc listeners reqs =
      let s =
        handle_requests
          (record { alloc = alloc; forwards = []; listeners = listeners; replies = [] }) reqs in
      close_all s s.forwards

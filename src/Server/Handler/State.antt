-- ===== src/Server/Handler/State.antt =====
-- internal/server/handler.go: the state of a ClientHandler, what it shares with the other
-- handlers, and writeMessage.
-- A handler is named by the number `me` in place of its pointer. A request is named by its id in
-- place of the pointer to its pendingReq: `requests` is the store of all pendingReqs that were
-- ever made, and `pending` has the ids that the map h.pending still holds.
use vlgr.Prelude.{ℕ, Bool, List, [], ◌∷◌, ◌++◌, Option}
use vlgr.Protocol.{HttpResponse, msg_register_err}
use vlgr.Protocol as Protocol
use vlgr.Server.PortAllocator.{PortAllocator}
use vlgr.Server.PortAllocator as PortAllocator
use vlgr.Server.Registry.{Tunnel, Registry}
use vlgr.Server.Registry as Registry

pub record TcpTunnel : Type 0 where
  pub id : ℕ
  pub public_port : ℕ
  pub local_port : ℕ

-- The flags say whether each channel is there and whether it is closed; the lists are what the
-- channels hold.
pub record PendingReq : Type 0 where
  pub has_response : Bool
  pub response : List HttpResponse
  pub has_stream : Bool
  pub stream_data : List (List ℕ)
  pub stream_closed : Bool
  pub has_ready : Bool
  pub ready : Bool
  pub done : Bool

-- The messages that the server puts into its replies.
pub data Reason : Type 0 where
  authenticate_first malformed_auth invalid_token invalid_port invalid_subdomain : Reason
  url_too_long too_many_tunnels tls_disabled tcp_disabled listen_failed unknown_tunnel : Reason
  protocol_error : Protocol.Error → Reason
  registry_error : Registry.Error → Reason
  port_error : PortAllocator.Error → Reason

pub data Payload : Type 0 where
  bytes : List ℕ → Payload
  text : Reason → Payload

-- A frame that is handed to the connection. Whether the write succeeds is not looked at by the
-- handlers of frames.
pub record Sent : Type 0 where
  pub type : ℕ
  pub tunnel_id : ℕ
  pub request_id : ℕ
  pub payload : Payload

pub record ClientHandler : Type 0 where
  pub me : ℕ
  pub tunnels : List (ℕ × Tunnel)
  pub tunnel_count : ℕ
  pub base_domain : List ℕ
  pub expected_token : List ℕ
  pub authenticated : Bool
  pub client_version : List ℕ
  pub tcp_host : List ℕ
  pub tcp_tunnels : List (ℕ × TcpTunnel)
  pub tls_tunnels : List (ℕ × Tunnel)
  pub pending : List ℕ
  pub requests : List (ℕ × PendingReq)
  pub request_id_seq : ℕ
  pub closed : Bool

-- A handler with what it shares; `none` is a nil pointer. `sent` is what it wrote so far.
pub record World : Type 0 where
  pub handler : ClientHandler
  pub open handler use *
  pub registry : Registry
  pub tls_registry : Option Registry
  pub tcp_alloc : Option PortAllocator
  pub sent : List Sent

-- What the surroundings decide during one call: the random bytes, or that the generator failed,
-- the clock, and whether net.Listen succeeds. `writes` says whether a write to the connection
-- succeeds where the code looks at it, and `sends` whether a select takes its send where another
-- case is ready too. `sha256` and the version are those of the build.
pub record Env : Type 0 where
  pub random_name : Option (List ℕ)
  pub random_id : Option (List ℕ)
  pub now : ℕ
  pub listens : Bool
  pub writes : Bool
  pub sends : Bool
  pub sha256 : List ℕ → List ℕ
  pub version : List ℕ

unfoldable pub write_message : World → ℕ → ℕ → ℕ → Payload → World
write_message w type tunnel_id request_id payload = record w {
  sent =
      w.sent
      ++ record { type = type; tunnel_id = tunnel_id; request_id = request_id; payload = payload }
        ∷ [];
}

unfoldable pub register_err : World → Reason → World
unfolding write_message
register_err w reason = write_message w msg_register_err 0 0 (text reason)

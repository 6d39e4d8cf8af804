-- ===== src/Server/Handler/Cleanup.antt =====
-- internal/server/handler.go: closeTCPTunnel, cleanup, and the closing of a request's channels.
use vlgr.Prelude.{ℕ, true, List, [], ◌∷◌, Option, none, some, if◌then◌else◌}
use mathlib.Core.Option
use vlgr.Prelude.Assoc.{nat_key, lookup, insert}
use vlgr.Server.PortAllocator.{PortAllocator, release}
use vlgr.Server.Registry.{Tunnel, Registry, unregister}
use vlgr.Server.Handler.State.{TcpTunnel, PendingReq, World}

unfoldable pub close_ready : PendingReq → PendingReq
close_ready pr = if pr.has_ready then record pr { ready = true } else pr

unfoldable pub close_done : PendingReq → PendingReq
close_done pr = record pr { done = true }

unfoldable pub close_stream : PendingReq → PendingReq
close_stream pr = if pr.has_stream then record pr { stream_closed = true } else pr

-- The pendingReq of an id is changed where it stands.
unfoldable pub update_request :
    ℕ → (PendingReq → PendingReq) → List (ℕ × PendingReq) → List (ℕ × PendingReq)
unfolding lookup insert
update_request id f store = elim (lookup id store) [
  | none ↦ store
  | some pr ↦ insert id (f pr) store
]

-- the loop over h.tunnels, and over h.tlsTunnels
unfoldable pub unregister_all : List (ℕ × Tunnel) → Registry → Registry
unfolding unregister
unregister_all [] r = r
unregister_all ((id, t) ∷ ts) r = unregister_all ts (unregister r t.subdomain)

-- closeTCPTunnel: the listener is closed and the port goes back.
unfoldable pub close_tcp_tunnel : TcpTunnel → Option PortAllocator → Option PortAllocator
unfolding release
close_tcp_tunnel tt = Option.map (λ a. release a tt.public_port)

unfoldable pub close_tcp_tunnels :
    List (ℕ × TcpTunnel) → Option PortAllocator → Option PortAllocator
unfolding close_tcp_tunnel
close_tcp_tunnels [] a = a
close_tcp_tunnels ((id, tt) ∷ tts) a = close_tcp_tunnels tts (close_tcp_tunnel tt a)

-- the loop over h.pending
unfoldable pub close_all : List ℕ → List (ℕ × PendingReq) → List (ℕ × PendingReq)
unfolding update_request close_stream close_done
close_all [] store = store
close_all (id ∷ ids) store =
    close_all ids (update_request id (λ pr. close_done (close_stream pr)) store)

-- h.closeOnce: the second call does nothing. The maps of tunnels keep their entries.
unfoldable pub cleanup : World → World
unfolding unregister_all close_tcp_tunnels close_all
cleanup w = if w.closed then w else record w {
  registry = unregister_all w.tunnels w.registry;
  tcp_alloc = close_tcp_tunnels w.tcp_tunnels w.tcp_alloc;
  tls_registry = Option.map (unregister_all w.tls_tunnels) w.tls_registry;
  handler = record w.handler {
    requests = close_all w.pending w.requests;
    pending = [];
    closed = true;
  };
}

-- ===== src/Server/Handler.antt =====
-- internal/server/handler.go: the server's side of one client connection.
pub mod State
pub mod Handshake
pub mod Tunnels
pub mod Cleanup
pub mod Requests
pub mod Dispatch
pub mod Ownership

-- ===== src/Server.antt =====
-- internal/server: the relay server. Each component is a child module.
pub mod PortAllocator
pub mod Sni
pub mod Subdomain
pub mod Registry
pub mod Protect
pub mod Proxy
pub mod Handler
pub mod Admin
pub mod Passthrough
pub mod Upgraded

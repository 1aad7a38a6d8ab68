-- ===== src/Gslb.antt =====
-- The DNS-based balancer of gslb: its core, its HTTP handlers and its CoreDNS handler.
pub mod Core
pub mod Run
pub mod Http
pub mod Rpc
pub mod WebUi
pub mod Handler
pub mod Setup
pub mod Plugin
mod Tests

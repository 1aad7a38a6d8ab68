-- ===== src/Popcache.antt =====
-- The cache servers of popcache.
pub mod Http
pub mod Upstream
pub mod Server
pub mod Main
pub mod Cluster
pub mod Config
mod Tests

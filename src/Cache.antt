-- ===== src/Cache.antt =====
-- updates/cache.go: the bounded message cache and the bounded peer cache.
pub mod MessageCache
pub mod Ring
pub mod Recent
pub mod PeerCache
pub mod Listed
pub mod Eviction

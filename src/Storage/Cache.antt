-- ===== src/Storage/Cache.antt =====
-- The caches in memory. Their maps are libraries, which stand behind an interface.
pub mod ConcurrentMap
pub mod WriteCache
mod Tests

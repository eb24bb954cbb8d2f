-- ===== src/Caches.antt =====
-- src/caches: the abstract cache, and the least-frequently-used heap_cache that implements it.
pub mod Cache
pub mod HeapCache

-- ===== src/Cache.antt =====
-- The in-memory caches of core/src/cache.
pub mod ConversationCache
pub mod MessageCache
pub mod LruCache

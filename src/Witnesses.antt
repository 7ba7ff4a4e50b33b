-- ===== src/Witnesses.antt =====
-- The theorems at concrete inputs.
mod Connection
mod Outbound
mod WebSocket
mod Caches
mod LruCache
mod Json
mod Notification
mod Sync
mod ConversationManager
mod MessageManager
mod AuthManager

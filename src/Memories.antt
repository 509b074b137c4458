-- ===== src/Memories.antt =====
-- The long-term memories of backend/api/app/domain/memories.
pub mod Lifecycle

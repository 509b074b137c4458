-- ===== src/Tasks.antt =====
-- The background tasks of backend/api/app: the entities, the local queue and the runner that
-- consumes it.
pub mod Entities
pub mod Queue
pub mod Runner

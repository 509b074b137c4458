-- ===== src/Acceptance.antt =====
-- The chain of checks before a task may finish: the settings of a plan (Config), the acceptance gate
-- (Gate) and the scope policy (Scope).
pub mod Config
pub mod Gate
pub mod Scope

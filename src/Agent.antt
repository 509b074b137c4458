-- ===== src/Agent.antt =====
-- The agent's run: its state (Entities), the router between phases (Router) and the
-- execution machine (Machine).
pub mod Entities
pub mod Router
pub mod Machine
pub mod Context
pub mod Granularity
pub mod Loop

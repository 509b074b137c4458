-- ===== src/Tools.antt =====
-- The tool layer of backend/api/app: calls, their budget, the result cache, the dependency plan and
-- the resilience of a call.
pub mod Call
pub mod Budget
pub mod Cache
pub mod Deps
pub mod Resilience
pub mod Policy
pub mod Runtime

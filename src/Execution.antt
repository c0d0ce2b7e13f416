-- ===== src/Execution.antt =====
-- The package execution: budgets, rate limiters, their chains, resource plans and cached maps.
pub mod Reservation
pub mod Budget
pub mod Chain
pub mod Rate
pub mod Plans
pub mod Cache
pub mod MySql
pub mod Outcome
pub mod Map
pub mod CachedMap
pub mod Group

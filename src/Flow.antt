-- ===== src/Flow.antt =====
-- The package flow: steps, policies, the shared admission environment, and the engines that run
-- steps over items.
pub mod Classify
pub mod Policy
pub mod Env
pub mod Accounts
pub mod Report
pub mod Admit
pub mod Runner
pub mod Pipeline
pub mod Observe
pub mod Stages
pub mod Run
pub mod Batched
pub mod Bulk

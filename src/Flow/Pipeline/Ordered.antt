-- ===== src/Flow/Pipeline/Ordered.antt =====
-- The pipeline ends, under every schedule, with the result of each item at the item's index:
-- runStages of flow/run.go.
pub mod Moves
pub mod Delivery
pub mod Lines
pub mod Finish

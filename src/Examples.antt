-- ===== src/Examples.antt =====
-- The theorems at concrete inputs of the packages execution and flow.
mod Limits
mod Stores
mod Rules
mod Runs
mod Written
mod Databases
mod Mapped
mod Planned
mod Grouped

-- ===== src/Scheduler.antt =====
-- The planner of internal/scheduler/scheduler.go: its data, the order in which it plans, the
-- capacity ledger, the planning loop and the confirmation of production.
pub mod Types
pub mod Sorting
pub mod Ledger
pub mod Plan
pub mod Confirm
pub mod Totals
pub mod Termination
pub mod Rule
pub mod Answers
pub mod Capacity
pub mod Placement
pub mod Conservation
pub mod Outcome
pub mod Frame
pub mod Determinism
pub mod Confirmation

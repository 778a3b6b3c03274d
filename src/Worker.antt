-- ===== src/Worker.antt =====
-- cmd/scheduler-worker/main.go: the worker that runs schedule jobs against the database.
pub mod Database
pub mod JobStore
pub mod LineSchedule
pub mod PreviewSchedule
pub mod JobRun
pub mod Delivery
pub mod Backfill
pub mod Effects
pub mod JobRows
pub mod Persisting
pub mod Ticket
pub mod Endings
pub mod Steps
pub mod Refinement
pub mod Healthy
pub mod Progress
pub mod Atomicity
pub mod Environment
pub mod Config
pub mod LockedOut
pub mod LineCapacity

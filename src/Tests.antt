-- ===== src/Tests.antt =====
-- The theorems applied to concrete plans and to a concrete store.
pub mod Plans
pub mod Stores
pub mod Runs
pub mod Logins
pub mod Workers
pub mod Locks
pub mod Requests

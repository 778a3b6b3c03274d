-- ===== src/Api.antt =====
-- internal/api/server.go: the in-memory store and its operations.
pub mod Requests
pub mod State
pub mod Validation
pub mod Allocations
pub mod OrderIds
pub mod Orders
pub mod Production
pub mod Users
pub mod Inputs
pub mod Planning
pub mod Splits
pub mod Jobs
pub mod Previews
pub mod Views
pub mod Freshness
pub mod Lifecycle
pub mod Evolution
pub mod Operations
pub mod Persisting
pub mod JobOutcome
pub mod References
pub mod Accounts
pub mod Confirming
pub mod Creating
pub mod Demo
pub mod HpaDemo
pub mod HpaSummary
pub mod HpaClear
pub mod HpaRestore

-- ===== src/Http.antt =====
-- The HTTP layer of internal/api/server.go.
pub mod Messages
pub mod Store
pub mod Server
pub mod Handlers
pub mod Scheduling
pub mod Routes
pub mod Access
pub mod Guards
pub mod RouteGuards
pub mod OrderRoutes
pub mod ScheduleRoutes
pub mod Admission
pub mod LoggedOut
pub mod Unpublished

-- ===== src/Api/Evolution.antt =====
-- What the operations of internal/api/server.go do to the map of orders.
pub mod Frame
pub mod Orders
pub mod Cancel
pub mod Production
pub mod Splits
pub mod Jobs
pub mod Previews
pub mod Demo
pub mod Run
pub mod Every

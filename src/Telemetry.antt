-- ===== src/Telemetry.antt =====
-- The telemetry path: the server of buddy1/buddy1.c and the dashboard of interface.c.
pub mod Decimal
pub mod Parse
pub mod Server
pub mod Dashboard
pub mod Directions
pub mod Delivery
pub mod Commands
pub mod Window
pub mod Shown
pub mod Program
pub mod Sessions
mod DashboardTests
mod Tests

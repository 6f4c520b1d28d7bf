-- ===== src/Http.antt =====
-- wifi/access_point/picow_access_point.c: the HTTP server of the access point.
pub mod Request
pub mod Connection
pub mod Server
pub mod Cutting
pub mod Pages
pub mod Redirect
pub mod Buffers
pub mod Histories
pub mod Closing
pub mod Portal
mod Tests

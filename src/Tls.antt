-- ===== src/Tls.antt =====
-- wifi/tls_client: the TLS client and its programs.
pub mod Client
pub mod Runs
pub mod Programs
pub mod Verdicts
mod Tests

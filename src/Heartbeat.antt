-- ===== src/Heartbeat.antt =====
-- wifi/tcp_server/picow_tcp_server.c: the client that sends a message at intervals.
pub mod Client
pub mod Intervals
mod Tests

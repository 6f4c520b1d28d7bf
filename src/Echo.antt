-- ===== src/Echo.antt =====
-- The TCP test client of wifi/tcp_client/picow_tcp_client.c, which sends back what it receives.
pub mod Client
pub mod Rounds
pub mod Packets
mod Tests
pub mod Finish

-- ===== src/Ntp.antt =====
-- The NTP client and its program, wifi/ntp_client/picow_ntp_client.c.
pub mod Client
pub mod Time
pub mod Alarm
pub mod Run
pub mod Retries
mod Tests

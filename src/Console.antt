-- ===== src/Console.antt =====
-- wifi/freertos/ping/picow_freertos_ping_j.c: the terminal that stores what it is sent.
pub mod Terminal
pub mod Lines
pub mod Stored
mod Tests

-- ===== src/Average.antt =====
-- wifi/freertos/ping/picow_freertos_ping.c: the averages of the temperature.
pub mod Tasks
pub mod Window
pub mod Pipeline
pub mod Messages
pub mod Flow
pub mod Turns
pub mod Drain
pub mod Printed
mod Tests

-- ===== src/Iperf.antt =====
-- wifi/iperf/picow_iperf.c and wifi/freertos/iperf/picow_freertos_iperf.c: the programs that measure the
-- speed of the Wi-Fi.
pub mod Reports
pub mod Station
pub mod Tasks
pub mod Totals
pub mod Blinking
mod Tests

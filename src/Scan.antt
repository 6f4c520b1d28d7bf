-- ===== src/Scan.antt =====
-- wifi/wifi_scan/picow_wifi_scan.c: the program that looks for Wi-Fi networks.
pub mod Loop
pub mod Attempts
mod Tests

-- ===== src/Beacon.antt =====
-- wifi/udp_beacon/picow_udp_beacon.c: the beacon.
pub mod Packets
pub mod Numbers
mod Tests

-- ===== src/Bench.antt =====
-- buddy5/buddy5_ultrasonic.c and buddy5/buddy5_ir.c: the test programs of the sensors.
pub mod Ultrasonic
pub mod Measuring
pub mod Encoders
pub mod Pulses
mod Tests

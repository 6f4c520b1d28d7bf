-- ===== src/Robot.antt =====
-- The driving robot: the sensors of buddy5/buddy5.c, the motors of buddy2/buddy2.c, and main.c.
pub mod Floats
pub mod Sensors
pub mod Distance
pub mod Ranging
pub mod Pulse
pub mod Upkeep
pub mod Motors
pub mod Pid
pub mod Main
pub mod States
pub mod Journey
pub mod Odometry
pub mod Decimals
mod Tests

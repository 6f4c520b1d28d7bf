-- ===== src/Dhcp.antt =====
-- The DHCP server of wifi/access_point/dhcpserver/dhcpserver.c.
pub mod Options
pub mod Leases
pub mod Server
pub mod Search
pub mod Holding
pub mod Reply
pub mod Invariant
pub mod Sockets
pub mod Broadcast
pub mod Answers
pub mod Traffic
mod Tests

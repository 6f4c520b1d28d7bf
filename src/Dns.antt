-- ===== src/Dns.antt =====
-- The DNS server of wifi/access_point/dnsserver/dnsserver.c.
pub mod Server
pub mod Question
pub mod Names
pub mod Sockets
pub mod Sending
mod Tests

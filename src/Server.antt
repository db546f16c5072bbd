-- ===== src/Server.antt =====
-- src/server.py: the server's state, and what each datagram, each packet from the TUN device and each
-- tick of its loop do to it.
pub mod State
pub mod Start
pub mod Handle
pub mod Resources
pub mod Tun
pub mod Loop
pub mod Run
pub mod Forwarding
pub mod Removal
pub mod Staleness
pub mod ClientId
pub mod Pooled
pub mod Linked

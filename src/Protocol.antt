-- ===== src/Protocol.antt =====
-- src/protocol: the wire format, the handshake and the data channel.
pub mod Messages
pub mod Packet
pub mod Framing
pub mod Replay
pub mod Data
pub mod Control
pub mod Tls

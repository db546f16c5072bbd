-- ===== src/Client.antt =====
-- src/client.py: the client's state, and what each datagram and each packet from the TUN device do to it.
pub mod State
pub mod Handle
pub mod Assignment
pub mod Run
pub mod Waiting

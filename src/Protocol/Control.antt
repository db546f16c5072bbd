-- ===== src/Protocol/Control.antt =====
-- src/protocol/control.py: the sessions and the handshake.
pub mod Hello
pub mod Session
pub mod Server
pub mod Client
pub mod Auth
pub mod Finished
pub mod Agreement
pub mod Resets
pub mod Hellos
pub mod Completion

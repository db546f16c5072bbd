-- ===== src/Protocol/Data.antt =====
-- src/protocol/data.py: packets in, encrypted packets out, and back. The compressor, the nonces and
-- the clock are parameters. Times are in milliseconds.
pub mod Channel
pub mod Encrypt
pub mod Decrypt
pub mod Delivery
pub mod RoundTrip
pub mod Once
pub mod Forgery
pub mod Fragments
pub mod Reassembly
pub mod Fragmented

-- ===== src/Tests.antt =====
-- Concrete packages, and the theorems applied to concrete inputs.
pub mod Toys
mod Wire
mod Channels
mod Handshakes
mod Completions
mod Large
mod Agreements
mod Addresses
mod Servers
pub mod Events
mod Assigned
mod Lifecycles
mod Machines
mod Windows
mod Peers
mod Clients
mod Settings
mod Tunnels

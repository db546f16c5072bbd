-- ===== src/Routing.antt =====
-- src/routing.py: the pool of virtual addresses. Each method runs under one lock, so a call is one
-- step. (`Pool` below is `IpPool`.)
pub mod Pool
pub mod Commands

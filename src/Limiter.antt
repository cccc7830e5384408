-- ===== src/Limiter.antt =====
-- internal/netutil: the pool of connections that the listeners share.
pub mod Steps
pub mod Bounds
mod Tests

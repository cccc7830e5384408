-- ===== src/Source.antt =====
-- internal/source: where the configuration of a domain comes from.
pub mod Api
pub mod Cache
pub mod Gitlab
pub mod Client
pub mod Domains
pub mod Disk
mod Tests

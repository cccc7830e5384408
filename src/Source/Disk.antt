-- ===== src/Source/Disk.antt =====
-- internal/source/disk: the domains that are configured by files under the pages root.
pub mod Groups
pub mod Digging
pub mod Maps
pub mod Keeping
pub mod Scanning
pub mod Scanned
pub mod Watching
mod Tests

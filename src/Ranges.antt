-- ===== src/Ranges.antt =====
-- internal/httprange: reading a remote file by HTTP range requests.
pub mod Resources
pub mod Readers
pub mod Bounds
pub mod Sections
pub mod Reading
pub mod ReadAt
pub mod Ranged
pub mod Typed
pub mod Reached
pub mod Tests

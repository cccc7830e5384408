-- ===== src/Zip.antt =====
-- internal/vfs/zip: the files of a zip archive that stands on another server.
pub mod Entries
pub mod Archives
pub mod Lru
pub mod Reads
pub mod Finding
pub mod Namespaces
pub mod Links
pub mod Opened
pub mod Opening
pub mod Settling
pub mod Vfs
pub mod Rounds
pub mod Reconfigure
pub mod Lifetime
pub mod Inflating
mod Tests

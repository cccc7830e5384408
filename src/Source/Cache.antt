-- ===== src/Source/Cache.antt =====
-- internal/source/gitlab/cache: the cache of domain lookups. The definitions stand in Entry,
-- Retriever and Store, and the proofs in the other children.
pub mod Entry
pub mod Lifecycle
pub mod Refreshing
pub mod Retriever
pub mod Retrying
pub mod Store
pub mod Sharing
pub mod Resolving
mod Tests

-- ===== src/Redirects.antt =====
-- internal/redirects: the _redirects file of a project. The definitions stand in Rules, and the
-- proofs in the other children.
pub mod Rules
pub mod Safety
pub mod Matching
pub mod Reports
mod Tests

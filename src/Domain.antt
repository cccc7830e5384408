-- ===== src/Domain.antt =====
-- internal/domain: a domain that pages are served for, with its certificate and its error pages.
pub mod Serve
pub mod Certificates
pub mod Failing
mod Tests

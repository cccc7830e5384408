-- ===== src/Serving.antt =====
-- internal/serving: what a resolver says about a request, and the reader of a site's files.
pub mod Requests
pub mod Handlers
pub mod Reader

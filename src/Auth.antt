-- ===== src/Auth.antt =====
-- internal/auth: the session of a visitor and the exchange of a code for a token.
pub mod Sessions
pub mod Callbacks
pub mod Checks
pub mod Tokens
pub mod Codes
pub mod Keys
mod Tests

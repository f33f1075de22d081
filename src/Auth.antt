-- ===== src/Auth.antt =====
-- The accounts of the API: src/auth. Times are microseconds; a database session is the list of rows before
-- and after it.
pub mod Users
pub mod Passwords
pub mod Login
pub mod Tokens
pub mod ApiKeys
pub mod Sessions
pub mod RateLimit
mod Tests

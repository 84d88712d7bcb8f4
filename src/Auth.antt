-- ===== src/Auth.antt =====
-- internal/auth: credentials, tokens and password hashes.
pub mod Credentials
pub mod Address
pub mod Token
pub mod Password
pub mod Reference

-- ===== src/Core.antt =====
-- The root package: errors, roles, accounts, sessions and single-use tokens.
pub mod Errors
pub mod Results
pub mod Roles
pub mod Platform
pub mod Types
pub mod Identity
pub mod Tokens
pub mod Password
pub mod Examples

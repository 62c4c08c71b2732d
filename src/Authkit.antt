-- ===== src/Authkit.antt =====
-- The authkit package over any store: roles, invites, login sessions and administration.
pub mod Stores
pub mod Invites
pub mod Instance
pub mod Service
pub mod Admin
pub mod Login
pub mod Activation
pub mod Onboarding
pub mod SecretFree
pub mod Secrets
mod Examples
pub mod Bootstrap
pub mod ErrorResponses
pub mod Reaper
pub mod ReaperLoop
mod ReaperCases
pub mod Administration
pub mod Reaping
pub mod FirstAccounts
pub mod Responses
mod Cases
pub mod Http
pub mod Replies

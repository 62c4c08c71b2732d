-- ===== src/Testkit.antt =====
-- authkit/testkit/store.go: the in-memory store that encodes the contract of every account store.
-- Each method holds the store's mutex from its first statement to its last, so a method is one
-- function of the state. A Go map is an association list, in the order of one iteration.
pub mod State
pub mod Accounts
pub mod Sessions
pub mod Guard
pub mod Tokens
pub mod Sweep
pub mod Removal
pub mod Cases
pub mod WellFormed
pub mod Calls
pub mod Invariant
pub mod Cover
pub mod Access
pub mod Sweeping
pub mod Uncovering
mod Examples

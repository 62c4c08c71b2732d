-- ===== src/Sqlite.antt =====
-- The store of authkit/sqlite: accounts, sessions and tokens in the tables of a SQLite file.
pub mod Rows
pub mod UserQueries
pub mod TokenQueries
pub mod Users
pub mod Roles
pub mod Tokens
pub mod Calls
pub mod Atomic
pub mod View
pub mod Simulation
pub mod Keyed
pub mod UsersSimulation
pub mod RolesSimulation
pub mod Transaction
pub mod GuardSimulation
pub mod CoverSimulation
pub mod RoleSimulation
pub mod TokensSimulation
pub mod RedeemSimulation
pub mod ResetSimulation
pub mod Sweeping
pub mod SweepSimulation
pub mod Refinement
pub mod ReadsSimulation
mod Examples

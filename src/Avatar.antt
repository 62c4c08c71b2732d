-- ===== src/Avatar.antt =====
-- The package avatar: the address of the image that stands for an account.
pub mod Unicode
pub mod Initials
pub mod Gravatar
pub mod Options
pub mod Colours
pub mod Sizes
mod Examples

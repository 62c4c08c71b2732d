-- ===== src/Authkit/Stores.antt =====
-- The store interfaces: `gouncer.Store`, `InviteStore` and `AdminStore`, over a store of type `S`, and
-- what a caller configures beside a store.
use gouncer.Base.{ℕ, Bool, true, ◌&&◌, not, Option, none, some, List, [], GoString, ◌==◌, string_eq}
use gouncer.Core.Results.{M}
use gouncer.Core.Roles.{Roles}
use gouncer.Core.Types.{User, Session, Token}

-- `gouncer.Store`
pub record AuthStore (S : Type 0) : Type 0 where
  pub create_user : User → M S (Unit {0})
  pub user_by_email : GoString → M S User
  pub create_session : Session → M S (Unit {0})
  pub user_by_session : GoString → ℕ → M S User
  pub delete_session : GoString → M S (Unit {0})

-- `InviteStore`
pub record InviteStore (S : Type 0) : Type 0 where
  pub base : AuthStore S
  pub create_token : Token → ℕ → M S (Unit {0})
  pub replace_token : Token → M S (Unit {0})
  pub activate_by_token : GoString → ℕ → GoString → M S ℕ
  pub reset_by_token : GoString → ℕ → GoString → M S ℕ

-- `AdminStore`, with the `UserByID` that a store may offer besides.
pub record AdminStore (S : Type 0) : Type 0 where
  pub base : AuthStore S
  pub list_users : M S (List User)
  pub set_user_disabled_under_cover : ℕ → Bool → Roles → M S (Unit {0})
  pub set_user_role : ℕ → GoString → Roles → M S (Unit {0})
  pub set_user_role_from : ℕ → GoString → GoString → Roles → M S (Unit {0})
  pub set_user_disabled_from : ℕ → GoString → Bool → Roles → M S (Unit {0})
  pub user_by_id : Option (ℕ → M S User)

-- `RoleSource`
pub record RoleSource : Type 0 where
  pub known : GoString → Bool
  pub outranks : GoString → GoString → Bool

-- `declared`
unfoldable pub declared : Option RoleSource → GoString → Bool
declared none role = true
declared (some source) role = not (role == []) && source.known role

-- ===== src/Core/Types.antt =====
-- The data of gouncer.go, session.go and token.go. An id is the number its 16 bytes write, and 0 is
-- `uuid.Nil`; an instant is a number of nanoseconds.
use gouncer.Base.{ℕ, Bool, GoString, codes}

-- `User`
pub record User : Type 0 where
  pub id : ℕ
  pub email : GoString
  pub name : GoString
  pub password_hash : GoString
  pub disabled : Bool
  pub confirmed : Bool
  pub role : GoString
  pub created_at : ℕ

-- `Session`
pub record Session : Type 0 where
  pub token : GoString
  pub token_hash : GoString
  pub user_id : ℕ
  pub created_at : ℕ
  pub expires_at : ℕ

-- `Token`
pub record Token : Type 0 where
  pub token : GoString
  pub token_hash : GoString
  pub user_id : ℕ
  pub purpose : GoString
  pub created_at : ℕ
  pub expires_at : ℕ

-- The purposes a token is issued for.
abbrev pub purpose_invite : GoString
purpose_invite = codes "invite"

abbrev pub purpose_reset : GoString
purpose_reset = codes "reset"

abbrev pub purpose_confirm : GoString
purpose_confirm = codes "confirm"

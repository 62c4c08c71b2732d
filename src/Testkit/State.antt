-- ===== src/Testkit/State.antt =====
-- The fields of `Store`, and the errors that a test forces.
use gouncer.Base.{ℕ, Option, none, [], GoString, nat_eq, string_eq}
use gouncer.Base.Dict.{Dict}
use gouncer.Core.Errors.{Error}
use gouncer.Core.Results.{M, ok}
use gouncer.Core.Roles.{Roles}
use gouncer.Core.Types.{User, Session, Token}

-- The fields `LookupErr` to `ResetErr`.
pub record Faults : Type 0 where
  pub lookup_err : Option Error
  pub session_err : Option Error
  pub create_session_err : Option Error
  pub delete_err : Option Error
  pub list_users_err : Option Error
  pub create_user_err : Option Error
  pub set_disabled_err : Option Error
  pub set_role_err : Option Error
  pub token_err : Option Error
  pub activate_err : Option Error
  pub reset_err : Option Error

pub record Store : Type 0 where
  pub users : Dict ℕ User
  pub sessions : Dict GoString Session
  pub tokens : Dict GoString Token
  pub faults : Faults
  pub disabled_under_cover : ℕ
  pub cover_given : Roles

abbrev pub no_faults : Faults
no_faults = record {
  lookup_err = none;
  session_err = none;
  create_session_err = none;
  delete_err = none;
  list_users_err = none;
  create_user_err = none;
  set_disabled_err = none;
  set_role_err = none;
  token_err = none;
  activate_err = none;
  reset_err = none;
}

-- `NewStore`
unfoldable pub new_store : Store
new_store = record {
  users = [];
  sessions = [];
  tokens = [];
  faults = no_faults;
  disabled_under_cover = 0;
  cover_given = [];
}

-- Changes fields and answers no error.
abbrev pub update : (Store → Store) → M Store (Unit {0})
update f s = (ok tt, f s)

-- Reads the fields.
abbrev pub fields : M Store Store
fields s = (ok s, s)

-- ===== src/Sqlite/Users.antt =====
-- store.go and setup.go of authkit/sqlite: accounts and sessions, and the transaction that the other
-- files run their writes in.
use gouncer.Base.{
  ℕ, zero, suc, Bool, true, false, ◌||◌, Option, none, some, List, [], ◌∷◌, GoString, if◌then◌else◌,
}
use gouncer.Core.Errors.{
  Error, wrap, is, email_taken, user_not_found, session_not_found, token_exists, token_not_found,
  last_privileged, role_changed, setup_done,
}
use gouncer.Core.Results.{M, Result, ok, err, ◌>>=◌, ◌>>◌, pure, fail, refuse_if}
use gouncer.Core.Types.{User, Session}
use gouncer.Sqlite.Rows.{Driver, AuthUser, AuthSession, Tables, Database, statement}
use gouncer.Sqlite.UserQueries
use gouncer.Sqlite.TokenQueries

-- `isSentinel`
unfoldable pub is_sentinel : Error → Bool
unfolding is
is_sentinel e =
    is e token_exists
    || (is e token_not_found
        || (is e user_not_found
            || (is e last_privileged || (is e role_changed || is e setup_done))))

-- `BeginTx` and `Commit`, which can fail as a statement can.
unfoldable pub signal : M Database (Unit {0})
unfolding statement
signal = statement λ t. (ok tt, t)

abbrev pub rollback : Tables → Database → Database
rollback t db = record db { tables = t }

module _ (driver : Driver) where
  open driver use {to_column, from_column, classify, is_unique}

  -- `failed`, on an error. The action is text of the message alone.
  unfoldable pub failed : Error → Error
  failed e = wrap (classify e)

  abbrev pub failing : {A : Type 0} → Result A × Database → Result A × Database
  failing (ok a, db) = (ok a, db)
  failing (err e, db) = (err (failed e), db)

  -- A method that marks whatever its statement fails with.
  abbrev pub marked : {A : Type 0} → M Database A → M Database A
  marked run db = failing (run db)

  abbrev pub committed :
      {A : Type 0} → Tables → A → Result (Unit {0}) × Database → Result A × Database
  committed before a (ok _, db) = (ok a, db)
  committed before a (err e, db) = (err (failed e), rollback before db)

  -- What `inTx` does once its body ended.
  unfoldable pub ended : {A : Type 0} → Tables → Result A × Database → Result A × Database
  unfolding signal is_sentinel failed
  ended before (ok a, db) = committed before a (signal db)
  ended before (err e, db) = (err (if is_sentinel e then e else failed e), rollback before db)

  abbrev pub begun :
      {A : Type 0} → M Database A → Result (Unit {0}) × Database → Result A × Database
  begun body (ok _, db) = ended db.tables (body db)
  begun body (err e, db) = (err (failed e), db)

  -- `inTx`
  unfoldable pub in_tx : {A : Type 0} → M Database A → M Database A
  unfolding signal ended failed
  in_tx body db = begun body (signal db)

  -- `newUserParams`
  abbrev pub new_user_params : User → AuthUser
  new_user_params u = record {
    id = u.id;
    email = u.email;
    name = u.name;
    password_hash = u.password_hash;
    disabled = u.disabled;
    created_at = to_column u.created_at;
    role = u.role;
    confirmed = u.confirmed;
  }

  abbrev pub stored_user : AuthUser → User
  stored_user r = record {
    id = r.id;
    email = r.email;
    name = r.name;
    password_hash = r.password_hash;
    disabled = r.disabled;
    confirmed = r.confirmed;
    role = r.role;
    created_at = from_column r.created_at;
  }

  abbrev pub created : Result (Unit {0}) × Database → Result (Unit {0}) × Database
  created (ok _, db) = (ok tt, db)
  created (err e, db) = (err (if is_unique e then email_taken else failed e), db)

  -- `CreateUser`
  unfoldable pub create_user : User → M Database (Unit {0})
  unfolding UserQueries.create_user failed
  create_user u db = created (UserQueries.create_user (new_user_params u) db)

  -- `userOrMissing`
  abbrev pub user_or_missing : Error → Result (Option AuthUser) × Database → Result User × Database
  user_or_missing missing (ok (some r), db) = (ok (stored_user r), db)
  user_or_missing missing (ok none, db) = (err missing, db)
  user_or_missing missing (err e, db) = (err (failed e), db)

  -- `UserByEmail`
  unfoldable pub user_by_email : GoString → M Database User
  unfolding UserQueries.get_user_by_email failed
  user_by_email email db = user_or_missing user_not_found (UserQueries.get_user_by_email email db)

  -- `UserByID`
  unfoldable pub user_by_id : ℕ → M Database User
  unfolding UserQueries.get_user_by_id failed
  user_by_id id db = user_or_missing user_not_found (UserQueries.get_user_by_id id db)

  abbrev pub session_params : Session → AuthSession
  session_params x = record {
    token_hash = x.token_hash;
    user_id = x.user_id;
    created_at = to_column x.created_at;
    expires_at = to_column x.expires_at;
  }

  -- `CreateSession`
  unfoldable pub create_session : Session → M Database (Unit {0})
  unfolding TokenQueries.create_session failed
  create_session x = marked (TokenQueries.create_session (session_params x))

  -- `UserBySession`
  unfoldable pub user_by_session : GoString → ℕ → M Database User
  unfolding TokenQueries.get_user_by_session failed
  user_by_session token_hash now db =
      user_or_missing session_not_found
        (TokenQueries.get_user_by_session token_hash (to_column now) db)

  -- `listedUsers`
  abbrev pub listed_users : List AuthUser → List User
  listed_users [] = []
  listed_users (r ∷ rs) = record (stored_user r) { password_hash = [] } ∷ listed_users rs

  -- `ListUsers`
  unfoldable pub list_users : M Database (List User)
  unfolding UserQueries.list_users failed
  list_users = marked do rows ← UserQueries.list_users; pure (listed_users rows)

  -- `UsersByIDs`
  unfoldable pub users_by_ids : List ℕ → M Database (List User)
  unfolding UserQueries.list_users_by_ids failed
  users_by_ids [] = pure []
  users_by_ids (id ∷ ids) =
      marked do rows ← UserQueries.list_users_by_ids (id ∷ ids); pure (listed_users rows)

  -- `revoke`
  unfoldable pub revoke : ℕ → Bool → M Database (Unit {0})
  unfolding TokenQueries.delete_user_sessions TokenQueries.delete_user_tokens
  revoke id false = pure tt
  revoke id true = do TokenQueries.delete_user_sessions id; TokenQueries.delete_user_tokens id

  -- Refuses a write that found no account.
  abbrev pub wrote : ℕ → M Database (Unit {0})
  wrote zero = fail user_not_found
  wrote (suc _) = pure tt

  -- `disable`
  unfoldable pub disable : ℕ → Bool → M Database (Unit {0})
  unfolding UserQueries.set_user_disabled revoke
  disable id disabled = do
    count ← UserQueries.set_user_disabled disabled id
    wrote count
    revoke id disabled

  -- `SetUserDisabled`
  unfoldable pub set_user_disabled : ℕ → Bool → M Database (Unit {0})
  unfolding in_tx disable
  set_user_disabled id disabled = in_tx (disable id disabled)

  -- `DeleteExpiredSessions`
  unfoldable pub delete_expired_sessions : ℕ → M Database ℕ
  unfolding TokenQueries.delete_expired_sessions failed
  delete_expired_sessions now = marked (TokenQueries.delete_expired_sessions (to_column now))

  -- `DeleteSession`
  unfoldable pub delete_session : GoString → M Database (Unit {0})
  unfolding TokenQueries.delete_session failed
  delete_session token_hash = marked (TokenQueries.delete_session token_hash)

  -- `HasUsers`
  unfoldable pub has_users : M Database Bool
  unfolding UserQueries.has_users failed
  has_users = marked UserQueries.has_users

  abbrev pub create_first_user_body : User → M Database (Unit {0})
  create_first_user_body u = do
    held ← UserQueries.has_users
    refuse_if held setup_done
    UserQueries.create_user (new_user_params u)

  -- `CreateFirstUser`
  unfoldable pub create_first_user : User → M Database (Unit {0})
  unfolding in_tx UserQueries.has_users UserQueries.create_user
  create_first_user u = in_tx (create_first_user_body u)

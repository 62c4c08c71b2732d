-- ===== src/Sqlite/UserQueries.antt =====
-- internal/db/queries.sql.go: the statements on `auth_users`, each under its generated method. A time
-- argument is the number of its column, a list in JSON is the list that `json_each` reads of it, and a
-- query for one row answers `none` where `sql.ErrNoRows` is the error.
use gouncer.Base.{
  ℕ, ◌+◌, Bool, true, false, not, ◌&&◌, ◌||◌, Option, none, some, List, [], ◌∷◌, ◌++◌, GoString,
  ltb, leb, ◌==◌, nat_eq, string_eq, contains, if◌then◌else◌,
}
use gouncer.Core.Results.{M, Result, ok, err}
use gouncer.Sqlite.Rows.{
  AuthUser, AuthToken, Tables, Database, statement, reading, delete_where, update_where,
  count_where, find_where, select_where, exists_where, unique_violation,
}

abbrev pub has_id : ℕ → AuthUser → Bool
has_id id u = u.id == id

-- Runs an update of the accounts and answers how many rows it wrote.
abbrev pub update_users : (AuthUser → Bool) → (AuthUser → AuthUser) → Tables → Result ℕ × Tables
update_users p f t = (ok (count_where p t.users), record t { users = update_where p f t.users })

abbrev pub insert_user : AuthUser → Tables → Result (Unit {0}) × Tables
insert_user u t =
    if exists_where (λ r. r.id == u.id || r.email == u.email) t.users
    then (err unique_violation, t)
    else (ok tt, record t { users = t.users ++ u ∷ [] })

-- `CreateUser`. The table keeps ids and emails distinct.
unfoldable pub create_user : AuthUser → M Database (Unit {0})
unfolding statement exists_where
create_user u = statement (insert_user u)

abbrev pub is_any : List AuthUser → Bool
is_any [] = false
is_any (_ ∷ _) = true

-- `HasUsers`
unfoldable pub has_users : M Database Bool
unfolding statement
has_users = statement (reading λ t. is_any t.users)

-- `GetUserByEmail`
unfoldable pub get_user_by_email : GoString → M Database (Option AuthUser)
unfolding statement find_where
get_user_by_email email = statement (reading λ t. find_where (λ u. u.email == email) t.users)

-- `GetUserByID`
unfoldable pub get_user_by_id : ℕ → M Database (Option AuthUser)
unfolding statement find_where
get_user_by_id id = statement (reading λ t. find_where (has_id id) t.users)

-- `COLLATE NOCASE`, which lowers the letters of ASCII alone.
abbrev nocase : ℕ → ℕ
nocase c = if leb 65 c && leb c 90 then c + 32 else c

unfoldable pub nocase_before : GoString → GoString → Bool
nocase_before [] [] = false
nocase_before [] (y ∷ ys) = true
nocase_before (x ∷ xs) [] = false
nocase_before (x ∷ xs) (y ∷ ys) =
    let rest = nocase_before xs ys in
    if nocase x == nocase y then rest else ltb (nocase x) (nocase y)

-- The order of `ORDER BY name COLLATE NOCASE, id`. The text of an id orders as its number.
unfoldable pub listed_before : AuthUser → AuthUser → Bool
unfolding nocase_before
listed_before a b =
    if nocase_before a.name b.name
    then true
    else if nocase_before b.name a.name
    then false
    else ltb a.id b.id

unfoldable pub place : AuthUser → List AuthUser → List AuthUser
unfolding listed_before
place u [] = u ∷ []
place u (v ∷ vs) = let rest = place u vs in if listed_before v u then v ∷ rest else u ∷ v ∷ vs

unfoldable pub in_order : List AuthUser → List AuthUser
unfolding place
in_order [] = []
in_order (u ∷ us) = place u (in_order us)

-- `ListUsers`. The rows leave the password hash out, which the caller does not read.
unfoldable pub list_users : M Database (List AuthUser)
unfolding statement in_order
list_users = statement (reading λ t. in_order t.users)

-- `ListUsersByIDs`
unfoldable pub list_users_by_ids : List ℕ → M Database (List AuthUser)
unfolding statement select_where contains
list_users_by_ids ids = statement (reading λ t. select_where (λ u. contains ids u.id) t.users)

-- `SetUserDisabled`
unfoldable pub set_user_disabled : Bool → ℕ → M Database ℕ
unfolding statement update_where count_where
set_user_disabled disabled id =
    statement (update_users (has_id id) (λ u. record u { disabled = disabled }))

-- `SetUserRole`
unfoldable pub set_user_role : GoString → ℕ → M Database ℕ
unfolding statement update_where count_where
set_user_role role id = statement (update_users (has_id id) (λ u. record u { role = role }))

abbrev pub grant_roleless : GoString → Tables → Result ℕ × Tables
grant_roleless role = update_users (λ u. u.role == []) (λ u. record u { role = role })

-- `GrantRoleToRoleless`
unfoldable pub grant_role_to_roleless : GoString → M Database ℕ
unfolding statement update_where count_where
grant_role_to_roleless role = statement (grant_roleless role)

-- The id of the first account that passes.
abbrev pub id_of : Option AuthUser → Option ℕ
id_of none = none
id_of (some u) = some u.id

abbrev pub is_enabled : ℕ → AuthUser → Bool
is_enabled id u = has_id id u && not u.disabled

abbrev pub is_unactivated : ℕ → AuthUser → Bool
is_unactivated id u = has_id id u && (not u.disabled && not u.confirmed)

-- `LockEnabledUser`
unfoldable pub lock_enabled_user : ℕ → M Database (Option ℕ)
unfolding statement find_where
lock_enabled_user id = statement (reading λ t. id_of (find_where (is_enabled id) t.users))

-- `LockUnactivatedUser`
unfoldable pub lock_unactivated_user : ℕ → M Database (Option ℕ)
unfolding statement find_where
lock_unactivated_user id = statement (reading λ t. id_of (find_where (is_unactivated id) t.users))

-- `ActivateUser`
unfoldable pub activate_user : GoString → ℕ → M Database ℕ
unfolding statement update_where count_where
activate_user password_hash id = statement (
    update_users (is_unactivated id)
      (λ u. record u { password_hash = password_hash; confirmed = true }))

-- `SetUserPassword`
unfoldable pub set_user_password : GoString → ℕ → M Database ℕ
unfolding statement update_where count_where
set_user_password password_hash id =
    statement (update_users (is_enabled id) (λ u. record u { password_hash = password_hash }))

abbrev pub ids_of : List AuthUser → List ℕ
ids_of [] = []
ids_of (u ∷ us) = u.id ∷ ids_of us

abbrev pub is_unconfirmed_of : List ℕ → AuthUser → Bool
is_unconfirmed_of ids u = not u.confirmed && contains ids u.id

-- `ORDER BY id`
unfoldable pub place_id : ℕ → List ℕ → List ℕ
place_id i [] = i ∷ []
place_id i (j ∷ js) = let rest = place_id i js in if ltb j i then j ∷ rest else i ∷ j ∷ js

unfoldable pub order_ids : List ℕ → List ℕ
unfolding place_id
order_ids [] = []
order_ids (i ∷ is) = place_id i (order_ids is)

-- `LockUnconfirmedAccounts`
unfoldable pub lock_unconfirmed_accounts : List ℕ → M Database (List ℕ)
unfolding statement select_where contains order_ids
lock_unconfirmed_accounts ids =
    statement (reading λ t. order_ids (ids_of (select_where (is_unconfirmed_of ids) t.users)))

abbrev pub live_token : ℕ → GoString → ℕ → AuthToken → Bool
live_token id purpose expires_at k =
    k.user_id == id && (k.purpose == purpose && ltb expires_at k.expires_at)

-- The accounts that `DeleteUnconfirmedAccounts` deletes.
abbrev pub is_swept : List ℕ → GoString → ℕ → List AuthToken → AuthUser → Bool
is_swept ids purpose expires_at tokens u =
    is_unconfirmed_of ids u && not (exists_where (live_token u.id purpose expires_at) tokens)

-- The sessions and tokens that reference an account of the list, which `ON DELETE CASCADE` deletes.
abbrev pub cascade : List ℕ → Tables → Tables
cascade gone t = record t {
  sessions = delete_where (λ x. contains gone x.user_id) t.sessions;
  tokens = delete_where (λ k. contains gone k.user_id) t.tokens;
}

-- `DeleteUnconfirmedAccounts`
unfoldable pub delete_unconfirmed_accounts : List ℕ → GoString → ℕ → M Database (Unit {0})
unfolding statement delete_where select_where exists_where contains
delete_unconfirmed_accounts ids purpose expires_at = statement λ t.
    let swept = is_swept ids purpose expires_at t.tokens in
    (
      ok tt,
      cascade (ids_of (select_where swept t.users))
          (record t { users = delete_where swept t.users }),
    )

-- `CountCover`
unfoldable pub count_cover : List GoString → ℕ → M Database ℕ
unfolding statement count_where contains
count_cover roles id = statement (
    reading λ t.
      count_where (λ u. contains roles u.role && (not u.disabled && not (has_id id u))) t.users)

-- `HoldsPrivilege`
unfoldable pub holds_privilege : ℕ → List GoString → M Database ℕ
unfolding statement count_where contains
holds_privilege id roles = statement (
    reading
      λ t. count_where (λ u. has_id id u && (contains roles u.role && not u.disabled)) t.users)

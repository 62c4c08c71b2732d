-- ===== src/Sqlite/TokenQueries.antt =====
-- internal/db/queries.sql.go: the statements on `auth_sessions` and `auth_tokens`.
use gouncer.Base.{
  ℕ, Bool, not, ◌&&◌, Option, none, some, List, [], ◌∷◌, ◌++◌, GoString, ltb, ◌==◌, nat_eq,
  string_eq, if◌then◌else◌,
}
use gouncer.Core.Results.{M, Result, ok, err}
use gouncer.Sqlite.Rows.{
  AuthUser, AuthSession, AuthToken, Tables, Database, statement, reading, delete_where, count_where,
  find_where, select_where, exists_where, unique_violation, foreign_key_violation,
}
use gouncer.Sqlite.UserQueries.{has_id, is_enabled, live_token}

abbrev pub insert_session : AuthSession → Tables → Result (Unit {0}) × Tables
insert_session x t =
    if exists_where (λ (r : AuthSession). r.token_hash == x.token_hash) t.sessions
    then (err unique_violation, t)
    else if not (exists_where (has_id x.user_id) t.users)
    then (err foreign_key_violation, t)
    else (ok tt, record t { sessions = t.sessions ++ x ∷ [] })

-- `CreateSession`. The table keeps hashes distinct and wants an account behind each session.
unfoldable pub create_session : AuthSession → M Database (Unit {0})
unfolding statement exists_where
create_session x = statement (insert_session x)

abbrev pub is_open : GoString → ℕ → AuthSession → Bool
is_open token_hash expires_at x = x.token_hash == token_hash && ltb expires_at x.expires_at

-- The first row of the join of sessions that pass with their enabled accounts.
unfoldable pub first_owner :
    (AuthSession → Bool) → List AuthSession → List AuthUser → Option AuthUser
unfolding find_where
first_owner p [] users = none
first_owner p (x ∷ xs) users =
    let rest = first_owner p xs users in
    if p x
    then (elim (find_where (is_enabled x.user_id) users) [ some u ↦ some u | none ↦ rest ])
    else rest

-- `GetUserBySession`
unfoldable pub get_user_by_session : GoString → ℕ → M Database (Option AuthUser)
unfolding statement first_owner
get_user_by_session token_hash expires_at =
    statement (reading λ t. first_owner (is_open token_hash expires_at) t.sessions t.users)

abbrev pub sessions_where : (AuthSession → Bool) → Tables → Tables
sessions_where p t = record t { sessions = delete_where p t.sessions }

abbrev pub tokens_where : (AuthToken → Bool) → Tables → Tables
tokens_where p t = record t { tokens = delete_where p t.tokens }

-- `DeleteUserSessions`
unfoldable pub delete_user_sessions : ℕ → M Database (Unit {0})
unfolding statement delete_where
delete_user_sessions user_id = statement λ t. (ok tt, sessions_where (λ x. x.user_id == user_id) t)

abbrev pub remove_session : GoString → Tables → Result (Unit {0}) × Tables
remove_session token_hash t = (ok tt, sessions_where (λ x. x.token_hash == token_hash) t)

-- `DeleteSession`
unfoldable pub delete_session : GoString → M Database (Unit {0})
unfolding statement delete_where
delete_session token_hash = statement (remove_session token_hash)

abbrev pub is_over : ℕ → AuthSession → Bool
is_over expires_at x = not (ltb expires_at x.expires_at)

abbrev pub remove_expired_sessions : ℕ → Tables → Result ℕ × Tables
remove_expired_sessions expires_at t =
    (ok (count_where (is_over expires_at) t.sessions), sessions_where (is_over expires_at) t)

-- `DeleteExpiredSessions`
unfoldable pub delete_expired_sessions : ℕ → M Database ℕ
unfolding statement delete_where count_where
delete_expired_sessions expires_at = statement (remove_expired_sessions expires_at)

abbrev pub insert_token : AuthToken → Tables → Result (Unit {0}) × Tables
insert_token k t =
    if exists_where (λ (r : AuthToken). r.token_hash == k.token_hash) t.tokens
    then (err unique_violation, t)
    else if not (exists_where (has_id k.user_id) t.users)
    then (err foreign_key_violation, t)
    else (ok tt, record t { tokens = t.tokens ++ k ∷ [] })

-- `CreateToken`. The table keeps hashes distinct and wants an account behind each token.
unfoldable pub create_token : AuthToken → M Database (Unit {0})
unfolding statement exists_where
create_token k = statement (insert_token k)

-- `CountLiveTokens`
unfoldable pub count_live_tokens : ℕ → GoString → ℕ → M Database ℕ
unfolding statement count_where
count_live_tokens user_id purpose expires_at =
    statement (reading λ t. count_where (live_token user_id purpose expires_at) t.tokens)

abbrev pub for_purpose : ℕ → GoString → AuthToken → Bool
for_purpose user_id purpose k = k.user_id == user_id && k.purpose == purpose

-- `DeleteUserTokensForPurpose`
unfoldable pub delete_user_tokens_for_purpose : ℕ → GoString → M Database (Unit {0})
unfolding statement delete_where
delete_user_tokens_for_purpose user_id purpose =
    statement λ t. (ok tt, tokens_where (for_purpose user_id purpose) t)

-- `DeleteUserTokens`
unfoldable pub delete_user_tokens : ℕ → M Database (Unit {0})
unfolding statement delete_where
delete_user_tokens user_id = statement λ t. (ok tt, tokens_where (λ k. k.user_id == user_id) t)

abbrev pub is_usable : GoString → GoString → ℕ → AuthToken → Bool
is_usable token_hash purpose expires_at k =
    k.token_hash == token_hash && (k.purpose == purpose && ltb expires_at k.expires_at)

abbrev pub holder_of : Option AuthToken → Option ℕ
holder_of none = none
holder_of (some k) = some k.user_id

-- `FindLiveToken`
unfoldable pub find_live_token : GoString → GoString → ℕ → M Database (Option ℕ)
unfolding statement find_where
find_live_token token_hash purpose expires_at =
    statement
      (reading λ t. holder_of (find_where (is_usable token_hash purpose expires_at) t.tokens))

-- `DeleteToken`
unfoldable pub delete_token : GoString → M Database ℕ
unfolding statement delete_where count_where
delete_token token_hash = statement λ t.
    let held : AuthToken → Bool = λ k. k.token_hash == token_hash in
    (ok (count_where held t.tokens), tokens_where held t)

abbrev pub is_expired : ℕ → AuthToken → Bool
is_expired expires_at k = not (ltb expires_at k.expires_at)

-- `ExpiredTokens`, whose rows are the account and the purpose.
unfoldable pub expired_tokens : ℕ → M Database (List AuthToken)
unfolding statement select_where
expired_tokens expires_at = statement (reading λ t. select_where (is_expired expires_at) t.tokens)

-- `DeleteExpiredTokens`
unfoldable pub delete_expired_tokens : ℕ → M Database ℕ
unfolding statement delete_where count_where
delete_expired_tokens expires_at =
    statement λ t.
      (ok (count_where (is_expired expires_at) t.tokens), tokens_where (is_expired expires_at) t)

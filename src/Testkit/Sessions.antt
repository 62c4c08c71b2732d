-- ===== src/Testkit/Sessions.antt =====
-- The methods on login sessions.
use gouncer.Base.{ℕ, ◌-◌, Bool, not, GoString, nat_eq, string_eq, ltb, length}
use gouncer.Base.Dict
use gouncer.Core.Errors.{session_not_found}
use gouncer.Core.Results.{M, ◌>>=◌, ◌>>◌, pure, lift, or_fail, refuse_if, forced}
use gouncer.Core.Types.{User, Session}
use gouncer.Testkit.State.{Store, update, fields}

-- `CreateSession`
unfoldable pub create_session : Session → M Store (Unit {0})
create_session sess = do
  s ← fields
  forced s.faults.create_session_err
  update (λ t. record t { sessions = Dict.insert sess.token_hash sess t.sessions })

-- `UserBySession`
unfoldable pub user_by_session : GoString → ℕ → M Store User
user_by_session token_hash now = do
  s ← fields
  forced s.faults.session_err
  sess ← lift (or_fail (Dict.lookup token_hash s.sessions) session_not_found)
  refuse_if (not (ltb now sess.expires_at)) session_not_found
  u ← lift (or_fail (Dict.lookup sess.user_id s.users) session_not_found)
  refuse_if u.disabled session_not_found
  pure u

-- `DeleteSession`
unfoldable pub delete_session : GoString → M Store (Unit {0})
delete_session token_hash = do
  s ← fields
  forced s.faults.delete_err
  update (λ t. record t { sessions = Dict.delete token_hash t.sessions })

abbrev pub session_expired : ℕ → GoString → Session → Bool
session_expired now _ sess = not (ltb now sess.expires_at)

-- `DeleteExpiredSessions`
unfoldable pub delete_expired_sessions : ℕ → M Store ℕ
delete_expired_sessions now = do
  s ← fields
  update (λ t. record t { sessions = Dict.delete_func (session_expired now) t.sessions })
  t ← fields
  pure (length s.sessions - length t.sessions)

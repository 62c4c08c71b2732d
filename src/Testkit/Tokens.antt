-- ===== src/Testkit/Tokens.antt =====
-- The methods on single-use tokens. `now` is what `time.Now().UTC()` reads where a method reads it.
use gouncer.Base.{ℕ, ◌==◌, Bool, true, not, ◌&&◌, ◌||◌, GoString, nat_eq, string_eq, leb, ltb}
use gouncer.Base.Dict
use gouncer.Core.Errors.{user_not_found, token_exists, token_not_found}
use gouncer.Core.Results.{M, ◌>>=◌, ◌>>◌, pure, lift, or_fail, refuse_if, forced}
use gouncer.Core.Types.{User, Session, Token, purpose_invite, purpose_reset}
use gouncer.Testkit.State.{Store, update, fields}
use gouncer.Testkit.Accounts.{put_user}
use gouncer.Testkit.Guard.{session_of}

-- A token for the account and purpose.
abbrev pub token_for : ℕ → GoString → GoString → Token → Bool
token_for id purpose _ tok = tok.user_id == id && tok.purpose == purpose

-- One that is unexpired too.
abbrev pub live_for : ℕ → GoString → ℕ → GoString → Token → Bool
live_for id purpose now hash tok = token_for id purpose hash tok && ltb now tok.expires_at

abbrev pub put_token : Token → Store → Store
put_token t s = record s { tokens = Dict.insert t.token_hash t s.tokens }

abbrev pub drop_tokens : (GoString → Token → Bool) → Store → Store
drop_tokens p s = record s { tokens = Dict.delete_func p s.tokens }

abbrev pub drop_sessions : (GoString → Session → Bool) → Store → Store
drop_sessions p s = record s { sessions = Dict.delete_func p s.sessions }

abbrev pub spend : GoString → Store → Store
spend hash s = record s { tokens = Dict.delete hash s.tokens }

abbrev pub activated : GoString → User → User
activated password_hash u = record u { password_hash = password_hash; confirmed = true }

-- `CreateToken`
unfoldable pub create_token : ℕ → Token → ℕ → M Store (Unit {0})
create_token now t live = do
  s ← fields
  forced s.faults.token_err
  u ← lift (or_fail (Dict.lookup t.user_id s.users) user_not_found)
  refuse_if u.disabled user_not_found
  let standing = Dict.count (live_for t.user_id t.purpose now) s.tokens
  refuse_if (leb live standing) token_exists
  update (put_token t)

-- `ReplaceToken`
unfoldable pub replace_token : Token → M Store (Unit {0})
replace_token t = do
  s ← fields
  forced s.faults.token_err
  u ← lift (or_fail (Dict.lookup t.user_id s.users) user_not_found)
  refuse_if (u.disabled || (t.purpose == purpose_invite && u.confirmed)) user_not_found
  update (drop_tokens (token_for t.user_id t.purpose))
  update (put_token t)

-- A token of the purpose, live at the instant.
abbrev pub usable : GoString → ℕ → Token → Bool
usable purpose now t = t.purpose == purpose && ltb now t.expires_at

-- `ActivateByToken`
unfoldable pub activate_by_token : GoString → ℕ → GoString → M Store ℕ
activate_by_token token_hash now password_hash = do
  s ← fields
  forced s.faults.token_err
  forced s.faults.activate_err
  t ← lift (or_fail (Dict.lookup token_hash s.tokens) token_not_found)
  refuse_if (not (usable purpose_invite now t)) token_not_found
  u ← lift (or_fail (Dict.lookup t.user_id s.users) user_not_found)
  refuse_if (u.disabled || u.confirmed) user_not_found
  update (put_user t.user_id (activated password_hash u))
  update (spend token_hash)
  pure t.user_id

-- `ResetByToken`
unfoldable pub reset_by_token : GoString → ℕ → GoString → M Store ℕ
reset_by_token token_hash now password_hash = do
  s ← fields
  forced s.faults.token_err
  forced s.faults.reset_err
  t ← lift (or_fail (Dict.lookup token_hash s.tokens) token_not_found)
  refuse_if (not (usable purpose_reset now t)) token_not_found
  u ← lift (or_fail (Dict.lookup t.user_id s.users) user_not_found)
  refuse_if u.disabled user_not_found
  update (put_user t.user_id (record u { password_hash = password_hash }))
  update (drop_sessions (session_of t.user_id))
  update (drop_tokens (token_for t.user_id purpose_reset))
  update (spend token_hash)
  pure t.user_id

-- ===== src/Testkit/Cases.antt =====
-- What each state-changing method of the store comes to: a case for the refusals, and one for the
-- write with the tests that it passed. The later proofs go by these cases.
use gouncer.Base.{
  ℕ, suc, ◌≡◌, Bool, true, false, not, ◌&&◌, ◌||◌, none, some, [], GoString, arith, nat_eq,
  string_eq, leb, ◌==◌, ◌⊎◌,
}
use gouncer.Base.Dict
use gouncer.Core.Results.{Result, ok, is_ok}
use gouncer.Core.Roles.{Roles, holds}
use gouncer.Core.Types.{User, Session, Token, purpose_invite, purpose_reset}
use gouncer.Testkit.State.{Store}
use gouncer.Testkit.Accounts.{has_email, put_user, create_user, create_first_user}
use gouncer.Testkit.Sessions.{create_session, delete_session}
use gouncer.Testkit.Guard.{
  session_of, revoke, set_disabled, privileged_at, covers_beside, set_role, disable_under_cover,
}
use gouncer.Testkit.Sweep.{token_expired, stranded, drop_all, delete_expired_tokens}
use gouncer.Testkit.Tokens.{
  token_for, live_for, put_token, drop_tokens, drop_sessions, spend, activated, create_token,
  replace_token, usable, activate_by_token, reset_by_token,
}

-- The method answers an error and leaves the state `t`.
abbrev pub Refused : {A : Type 0} → Result A × Store → Store → Type 0
Refused r t = (is_ok r.0 ≡ false) × (r.1 ≡ t)

pub create_user_cases :
    (u : User) (s : Store)
    → Refused (create_user u s) s
      ⊎ ((Dict.any (has_email u.email) s.users ≡ false)
          × (create_user u s ≡ (ok tt, put_user u.id u s)))
unfolding create_user
create_user_cases u s = ground arith

pub set_disabled_cases :
    (id : ℕ) (disabled : Bool) (s : Store)
    → Refused (set_disabled id disabled s) s
      ⊎ ((u : User) × (Dict.lookup id s.users ≡ some u)
          × (set_disabled id disabled s
              ≡ (ok tt, revoke id disabled (put_user id (record u { disabled = disabled }) s))))
unfolding set_disabled
set_disabled_cases id disabled s = ground arith

pub set_role_cases :
    (id : ℕ) (role : GoString) (privileged : Roles) (accepts : User → Result (Unit {0})) (s : Store)
    → let noted : Store = record s { cover_given = privileged } in
      Refused (set_role id role privileged accepts s) noted
      ⊎ ((u : User) × (Dict.lookup id s.users ≡ some u)
          × (accepts u ≡ ok tt)
          × (((not (holds privileged role) && privileged_at privileged (some u))
                && not (Dict.any (covers_beside id privileged) s.users))
              ≡ false)
          × (set_role id role privileged accepts s
              ≡ (ok tt, put_user id (record u { role = role }) noted)))
unfolding set_role
set_role_cases id role privileged accepts s = ground arith

pub create_first_user_cases :
    (u : User) (s : Store)
    → Refused (create_first_user u s) s
      ⊎ ((s.users ≡ []) × (create_first_user u s ≡ (ok tt, put_user u.id u s)))
unfolding create_first_user
create_first_user_cases u s = ground arith

pub disable_under_cover_cases :
    (id : ℕ) (disabled : Bool) (privileged : Roles) (accepts : User → Result (Unit {0})) (s : Store)
    → let noted : Store = record s {
      cover_given = privileged;
      disabled_under_cover = suc s.disabled_under_cover;
    } in
      Refused (disable_under_cover id disabled privileged accepts s) noted
      ⊎ ((u : User) × (Dict.lookup id s.users ≡ some u)
          × (accepts u ≡ ok tt)
          × (((disabled && privileged_at privileged (some u))
                && not (Dict.any (covers_beside id privileged) s.users))
              ≡ false)
          × (disable_under_cover id disabled privileged accepts s
              ≡ (ok tt, revoke id disabled (put_user id (record u { disabled = disabled }) noted))))
unfolding disable_under_cover
disable_under_cover_cases id disabled privileged accepts s = ground arith

pub create_token_cases :
    (now : ℕ) (t : Token) (live : ℕ) (s : Store)
    → Refused (create_token now t live s) s
      ⊎ ((u : User) × (Dict.lookup t.user_id s.users ≡ some u)
          × (u.disabled ≡ false)
          × (leb live (Dict.count (live_for t.user_id t.purpose now) s.tokens) ≡ false)
          × (create_token now t live s ≡ (ok tt, put_token t s)))
unfolding create_token
create_token_cases now t live s = ground arith

pub replace_token_cases :
    (t : Token) (s : Store)
    → Refused (replace_token t s) s
      ⊎ ((u : User) × (Dict.lookup t.user_id s.users ≡ some u)
          × ((u.disabled || (t.purpose == purpose_invite && u.confirmed)) ≡ false)
          × (replace_token t s
              ≡ (ok tt, put_token t (drop_tokens (token_for t.user_id t.purpose) s))))
unfolding replace_token
replace_token_cases t s = ground arith

pub activate_by_token_cases :
    (hash : GoString) (now : ℕ) (password_hash : GoString) (s : Store)
    → Refused (activate_by_token hash now password_hash s) s
      ⊎ ((t : Token) × (u : User) × (s.faults.token_err ≡ none)
          × (s.faults.activate_err ≡ none)
          × (Dict.lookup hash s.tokens ≡ some t)
          × (usable purpose_invite now t ≡ true)
          × (Dict.lookup t.user_id s.users ≡ some u)
          × ((u.disabled || u.confirmed) ≡ false)
          × (activate_by_token hash now password_hash s
              ≡ (ok t.user_id, spend hash (put_user t.user_id (activated password_hash u) s))))
unfolding activate_by_token
activate_by_token_cases hash now password_hash s = ground arith

pub reset_by_token_cases :
    (hash : GoString) (now : ℕ) (password_hash : GoString) (s : Store)
    → Refused (reset_by_token hash now password_hash s) s
      ⊎ ((t : Token) × (u : User) × (s.faults.token_err ≡ none)
          × (s.faults.reset_err ≡ none)
          × (Dict.lookup hash s.tokens ≡ some t)
          × (usable purpose_reset now t ≡ true)
          × (Dict.lookup t.user_id s.users ≡ some u)
          × (u.disabled ≡ false)
          × (reset_by_token hash now password_hash s ≡ (
            ok t.user_id,
            spend hash (
                drop_tokens (token_for t.user_id purpose_reset) (
                  drop_sessions
                    (session_of t.user_id)
                    (put_user t.user_id (record u { password_hash = password_hash }) s))),
          )))
unfolding reset_by_token
reset_by_token_cases hash now password_hash s = ground arith

pub create_session_cases :
    (x : Session) (s : Store)
    → Refused (create_session x s) s
      ⊎ (create_session x s
          ≡ (ok tt, record s { sessions = Dict.insert x.token_hash x s.sessions }))
unfolding create_session
create_session_cases x s = ground arith

pub delete_session_cases :
    (hash : GoString) (s : Store)
    → Refused (delete_session hash s) s
      ⊎ (delete_session hash s ≡ (ok tt, record s { sessions = Dict.delete hash s.sessions }))
unfolding delete_session
delete_session_cases hash s = ground arith

pub delete_expired_tokens_cases :
    (now : ℕ) (s : Store)
    → Refused (delete_expired_tokens now s) s
      ⊎ (delete_expired_tokens now s ≡ (
        ok (Dict.count (token_expired now) s.tokens),
        drop_all (stranded now s.tokens) now (drop_tokens (token_expired now) s),
      ))
unfolding delete_expired_tokens
delete_expired_tokens_cases now s = ground arith

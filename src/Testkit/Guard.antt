-- ===== src/Testkit/Guard.antt =====
-- Disabling accounts and changing roles, with the guard that keeps a privileged account.
use gouncer.Base.{
  ℕ, suc, ◌==◌, Bool, true, false, not, ◌&&◌, Option, none, some, GoString, nat_eq, string_eq, [],
}
use gouncer.Base.Dict
use gouncer.Core.Errors.{user_not_found, last_privileged, role_changed}
use gouncer.Core.Results.{M, Result, ok, err, ◌>>=◌, ◌>>◌, lift, or_fail, refuse_if, forced}
use gouncer.Core.Roles.{Roles, holds}
use gouncer.Core.Types.{User, Session, Token}
use gouncer.Testkit.State.{Store, update, fields}
use gouncer.Testkit.Accounts.{put_user}

abbrev pub session_of : ℕ → GoString → Session → Bool
session_of id _ sess = sess.user_id == id

abbrev pub token_of : ℕ → GoString → Token → Bool
token_of id _ tok = tok.user_id == id

-- The deletes of `setDisabled`, made when the account closes.
abbrev pub revoke : ℕ → Bool → Store → Store
revoke id false s = s
revoke id true s = record s {
  sessions = Dict.delete_func (session_of id) s.sessions;
  tokens = Dict.delete_func (token_of id) s.tokens;
}

-- `setDisabled`
unfoldable pub set_disabled : ℕ → Bool → M Store (Unit {0})
set_disabled id disabled = do
  s ← fields
  forced s.faults.set_disabled_err
  u ← lift (or_fail (Dict.lookup id s.users) user_not_found)
  update (put_user id (record u { disabled = disabled }))
  update (revoke id disabled)

-- `SetUserDisabled`
unfoldable pub set_user_disabled : ℕ → Bool → M Store (Unit {0})
unfolding set_disabled
set_user_disabled id disabled = set_disabled id disabled

-- `anyRole`
abbrev pub any_role : User → Result (Unit {0})
any_role u = ok tt

-- `stillHolds`
abbrev pub still_holds : GoString → User → Result (Unit {0})
still_holds held u = elim (u.role == held) [ true ↦ ok tt | false ↦ err role_changed ]

-- `privilegedAccount`
abbrev pub privileged_account : Roles → User → Bool
privileged_account privileged u = not u.disabled && holds privileged u.role

-- `privilegedAccount` of `s.Users[id]`, the zero account where the map holds none.
abbrev pub privileged_at : Roles → Option User → Bool
privileged_at privileged none = holds privileged []
privileged_at privileged (some u) = privileged_account privileged u

abbrev pub covers_beside : ℕ → Roles → ℕ → User → Bool
covers_beside id privileged other u = not (other == id) && privileged_account privileged u

-- `refuseUncovered`
unfoldable pub refuse_uncovered : ℕ → Roles → Bool → M Store (Unit {0})
refuse_uncovered id privileged removes_cover = do
  s ← fields
  refuse_if
      ((removes_cover && privileged_at privileged (Dict.lookup id s.users))
        && not (Dict.any (covers_beside id privileged) s.users))
      last_privileged

-- `setRole`
unfoldable pub set_role : ℕ → GoString → Roles → (User → Result (Unit {0})) → M Store (Unit {0})
unfolding refuse_uncovered
set_role id role privileged accepts = do
  update (λ t. record t { cover_given = privileged })
  s ← fields
  forced s.faults.set_role_err
  u ← lift (or_fail (Dict.lookup id s.users) user_not_found)
  lift (accepts u)
  refuse_uncovered id privileged (not (holds privileged role))
  update (put_user id (record u { role = role }))

-- `SetUserRole`
unfoldable pub set_user_role : ℕ → GoString → Roles → M Store (Unit {0})
unfolding set_role
set_user_role id role privileged = set_role id role privileged any_role

-- `SetUserRoleFrom`
unfoldable pub set_user_role_from : ℕ → GoString → GoString → Roles → M Store (Unit {0})
unfolding set_role
set_user_role_from id held role privileged = set_role id role privileged (still_holds held)

-- The check of a known account in `disableUnderCover`.
abbrev pub accepted : (User → Result (Unit {0})) → Option User → Result (Unit {0})
accepted accepts none = ok tt
accepted accepts (some u) = accepts u

-- `disableUnderCover`
unfoldable pub disable_under_cover :
    ℕ → Bool → Roles → (User → Result (Unit {0})) → M Store (Unit {0})
unfolding refuse_uncovered set_disabled
disable_under_cover id disabled privileged accepts = do
  update (λ t. record t {
    cover_given = privileged;
    disabled_under_cover = suc t.disabled_under_cover;
  })
  s ← fields
  forced s.faults.set_disabled_err
  lift (accepted accepts (Dict.lookup id s.users))
  refuse_uncovered id privileged disabled
  set_disabled id disabled

-- `SetUserDisabledUnderCover`
unfoldable pub set_user_disabled_under_cover : ℕ → Bool → Roles → M Store (Unit {0})
unfolding disable_under_cover
set_user_disabled_under_cover id disabled privileged =
    disable_under_cover id disabled privileged any_role

-- `SetUserDisabledFrom`
unfoldable pub set_user_disabled_from : ℕ → GoString → Bool → Roles → M Store (Unit {0})
unfolding disable_under_cover
set_user_disabled_from id held disabled privileged =
    disable_under_cover id disabled privileged (still_holds held)

-- ===== src/Sqlite/Roles.antt =====
-- role.go of authkit/sqlite: writes under the guard that keeps an enabled account in a privileged role.
use gouncer.Base.{
  ℕ, zero, suc, Bool, true, false, not, ◌||◌, Option, none, some, List, [], ◌∷◌, GoString, ◌==◌,
  string_eq, map,
}
use gouncer.Core.Errors.{last_privileged, role_changed, empty_role}
use gouncer.Core.Results.{M, ◌>>=◌, ◌>>◌, pure, fail, refuse_if}
use gouncer.Core.Roles.{Roles, holds}
use gouncer.Sqlite.Rows.{Driver, AuthUser, Database}
use gouncer.Sqlite.UserQueries
use gouncer.Sqlite.Users.{in_tx, disable, wrote, marked, failed}

module _ (driver : Driver) where
  -- `anyRole`
  abbrev pub any_role : M Database (Unit {0})
  any_role = pure tt

  abbrev pub still_held : GoString → Option AuthUser → M Database (Unit {0})
  still_held held none = pure tt
  still_held held (some u) = refuse_if (not (u.role == held)) role_changed

  -- `stillHolds`
  unfoldable pub still_holds : ℕ → GoString → M Database (Unit {0})
  unfolding UserQueries.get_user_by_id
  still_holds id held = do user ← UserQueries.get_user_by_id id; still_held held user

  -- `writeRole`
  unfoldable pub write_role : ℕ → GoString → M Database (Unit {0})
  unfolding UserQueries.set_user_role
  write_role id role = do count ← UserQueries.set_user_role role id; wrote driver count

  -- `writeDisabled`
  unfoldable pub write_disabled : ℕ → Bool → M Database (Unit {0})
  unfolding disable
  write_disabled id disabled = disable driver id disabled

  abbrev pub is_zero : ℕ → Bool
  is_zero zero = true
  is_zero (suc _) = false

  -- What `refuseUncovered` does for an account that holds a privileged role, so often.
  unfoldable pub refuse_last : List GoString → ℕ → ℕ → M Database (Unit {0})
  unfolding UserQueries.count_cover
  refuse_last roles id zero = pure tt
  refuse_last roles id (suc _) = do
    cover ← UserQueries.count_cover roles id
    refuse_if (is_zero cover) last_privileged

  abbrev pub is_empty : Roles → Bool
  is_empty [] = true
  is_empty (_ ∷ _) = false

  -- `refuseUncovered`
  unfoldable pub refuse_uncovered : ℕ → Roles → Bool → M Database (Unit {0})
  unfolding UserQueries.holds_privilege refuse_last
  refuse_uncovered id privileged removes_cover = elim (is_empty privileged || not removes_cover) [
    | true ↦ pure tt
    | false ↦ (do
      let roles = map driver.through_json privileged
      held ← UserQueries.holds_privilege id roles
      refuse_last roles id held)
  ]

  abbrev pub under_cover_body :
      ℕ → Roles → Bool → M Database (Unit {0}) → M Database (Unit {0}) → M Database (Unit {0})
  under_cover_body id privileged removes_cover accepts write = do
    accepts
    refuse_uncovered id privileged removes_cover
    write

  -- `underCover`
  unfoldable pub under_cover :
      ℕ → Roles → Bool → M Database (Unit {0}) → M Database (Unit {0}) → M Database (Unit {0})
  unfolding in_tx refuse_uncovered
  under_cover id privileged removes_cover accepts write =
      in_tx driver (under_cover_body id privileged removes_cover accepts write)

  -- `SetUserRole`
  unfoldable pub set_user_role : ℕ → GoString → Roles → M Database (Unit {0})
  unfolding under_cover write_role holds
  set_user_role id role privileged =
      under_cover id privileged (not (holds privileged role)) any_role (write_role id role)

  -- `SetUserDisabledUnderCover`
  unfoldable pub set_user_disabled_under_cover : ℕ → Bool → Roles → M Database (Unit {0})
  unfolding under_cover write_disabled
  set_user_disabled_under_cover id disabled privileged =
      under_cover id privileged disabled any_role (write_disabled id disabled)

  -- `SetUserRoleFrom`
  unfoldable pub set_user_role_from : ℕ → GoString → GoString → Roles → M Database (Unit {0})
  unfolding under_cover write_role still_holds holds
  set_user_role_from id held role privileged =
      under_cover id privileged (not (holds privileged role)) (still_holds id held)
        (write_role id role)

  -- `SetUserDisabledFrom`
  unfoldable pub set_user_disabled_from : ℕ → GoString → Bool → Roles → M Database (Unit {0})
  unfolding under_cover write_disabled still_holds
  set_user_disabled_from id held disabled privileged =
      under_cover id privileged disabled (still_holds id held) (write_disabled id disabled)

  -- `GrantRoleToRoleless`
  unfoldable pub grant_role_to_roleless : GoString → M Database ℕ
  unfolding UserQueries.grant_role_to_roleless failed
  grant_role_to_roleless role = elim (role == []) [
    | true ↦ fail empty_role
    | false ↦ marked driver (UserQueries.grant_role_to_roleless role)
  ]

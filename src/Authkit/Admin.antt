-- ===== src/Authkit/Admin.antt =====
-- admin.go and role.go: administration of accounts, and what a role source lets an actor do.
use gouncer.Base.{
  ℕ, Bool, true, false, not, ◌&&◌, ◌||◌, Option, none, some, List, [], ◌∷◌, GoString, if◌then◌else◌,
  ◌==◌, nat_eq, string_eq,
}
use gouncer.Core.Errors.{
  Error, unknown_role, self_disable, self_role, role_not_grantable, user_not_editable,
  user_not_found,
}
use gouncer.Core.Results.{M, Result, ok, err, ◌>>=◌, ◌>>◌, pure, lift, fail, refuse_if}
use gouncer.Core.Roles.{Roles}
use gouncer.Core.Platform.{Platform, Env}
use gouncer.Core.Types.{User}
use gouncer.Core.Identity.{new_user}
use gouncer.Core.Password.{hash_password}
use gouncer.Authkit.Stores.{AdminStore, RoleSource, declared}

-- `AdminHandlers`, less the store and what draws avatars
pub record Admin : Type 0 where
  pub privileged : Roles
  pub roles : Option RoleSource

-- `editable`
unfoldable pub editable : Admin → GoString → GoString → Bool → Bool
editable a reader held held_declared = elim a.roles [
  | none ↦ true
  | some source ↦ not held_declared || source.outranks reader held
]

-- `heldRefusal`
unfoldable pub held_refusal : Admin → GoString → GoString → Bool → Option Error
unfolding declared editable
held_refusal a actor held reenable =
    let held_declared = declared a.roles held in
    if not (editable a actor held held_declared)
    then some user_not_editable
    else if reenable && not held_declared
    then some role_not_grantable
    else none

-- The error with which `refuseHandout` refuses.
unfoldable pub refuse_handout : Admin → GoString → GoString → Option Error
unfolding declared
refuse_handout a actor role = elim a.roles [
  | none ↦ none
  | some source ↦
      if not (declared (some source) role)
      then some unknown_role
      else if source.outranks actor role
      then none
      else some role_not_grantable
]

-- `selfDisabling`
unfoldable pub self_disabling : ℕ → ℕ → Bool → Bool
self_disabling actor_id id disabled = disabled && actor_id == id

-- `checkRoleChange`
unfoldable pub check_role_change : Admin → ℕ → ℕ → GoString → Option Error
unfolding declared
check_role_change a actor_id id role =
    if actor_id == id
    then some self_role
    else if not (declared a.roles role)
    then some unknown_role
    else none

abbrev refuse_with : {S : Type 0} → Option Error → M S (Unit {0})
refuse_with none = pure tt
refuse_with (some e) = fail e

-- Whether a handler was built without a role source.
abbrev pub without_roles : Admin → Bool
without_roles a = elim a.roles [ none ↦ true | some source ↦ false ]

-- The role of the account with the id, in a listing.
abbrev pub role_in : ℕ → List User → Result GoString
role_in id [] = err user_not_found
role_in id (u ∷ us) = let rest = role_in id us in if u.id == id then ok u.role else rest

module _ {S : Type 0} (platform : Platform) (store : AdminStore S) (a : Admin) (env : Env) where
  open store use {
    base, list_users, set_user_disabled_under_cover, set_user_role, set_user_role_from,
    set_user_disabled_from, user_by_id,
  }
  open base use {create_user}

  -- `heldRole`
  unfoldable pub held_role : ℕ → M S GoString
  held_role id = elim user_by_id [
    | some read ↦ (do u ← read id; pure u.role)
    | none ↦ (do users ← list_users; lift (role_in id users))
  ]

  -- `heldEditable`, with the actor's role: the held role, or the error that it answers with
  unfoldable pub held_editable : GoString → ℕ → Bool → M S GoString
  unfolding held_role held_refusal
  held_editable actor id reenable =
      if without_roles a
      then pure []
      else do held ← held_role id; refuse_with (held_refusal a actor held reenable); pure held

  -- `roleChangeHeld`
  unfoldable pub role_change_held : GoString → ℕ → GoString → M S GoString
  unfolding held_editable refuse_handout
  role_change_held actor id role = do
    held ← held_editable actor id false
    refuse_with (refuse_handout a actor role)
    pure held

  -- `CreateAccount`: the account made
  unfoldable pub create_account : GoString → GoString → GoString → GoString → M S User
  unfolding declared
  create_account email name password role = do
    refuse_if (not (declared a.roles role)) unknown_role
    u ← lift (new_user platform (hash_password platform env) env email name password)
    create_user (record u { role = role })
    pure (record u { role = role })

  -- `SetAccountDisabled`
  unfoldable pub set_account_disabled : ℕ → ℕ → Bool → M S (Unit {0})
  unfolding self_disabling
  set_account_disabled actor_id id disabled = do
    refuse_if (self_disabling actor_id id disabled) self_disable
    set_user_disabled_under_cover id disabled a.privileged

  -- `SetAccountDisabledFrom`
  unfoldable pub set_account_disabled_from : ℕ → ℕ → GoString → Bool → M S (Unit {0})
  unfolding set_account_disabled declared self_disabling
  set_account_disabled_from actor_id id held disabled =
      if without_roles a || self_disabling actor_id id disabled
      then set_account_disabled actor_id id disabled
      else do
        refuse_if (not disabled && not (declared a.roles held)) role_not_grantable
        set_user_disabled_from id held disabled a.privileged

  -- `SetAccountRole`
  unfoldable pub set_account_role : ℕ → ℕ → GoString → M S (Unit {0})
  unfolding check_role_change
  set_account_role actor_id id role = do
    refuse_with (check_role_change a actor_id id role)
    set_user_role id role a.privileged

  -- `SetAccountRoleFrom`
  unfoldable pub set_account_role_from : ℕ → ℕ → GoString → GoString → M S (Unit {0})
  unfolding set_account_role check_role_change
  set_account_role_from actor_id id held role =
      if without_roles a then set_account_role actor_id id role else do
        refuse_with (check_role_change a actor_id id role)
        set_user_role_from id held role a.privileged

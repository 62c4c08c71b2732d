-- ===== src/Authkit/Bootstrap.antt =====
-- ensureadmin.go and createadmin.go: the first accounts, made by a command or at start.
use gouncer.Base.{
  ℕ, Bool, true, false, Option, none, some, [], GoString, if◌then◌else◌, ◌==◌, string_eq,
}
use gouncer.Core.Errors.{empty_role, email_taken, is}
use gouncer.Core.Results.{M, Result, ok, err, ◌>>=◌, ◌>>◌, pure, lift, fail, refuse_if}
use gouncer.Core.Roles.{Roles}
use gouncer.Core.Platform.{Platform, Env}
use gouncer.Core.Types.{User}
use gouncer.Core.Identity.{new_user}
use gouncer.Core.Password.{hash_password}
use gouncer.Authkit.Stores.{AuthStore}

module _ {S : Type 0} (platform : Platform) (store : AuthStore S) (env : Env) where
  open store use {create_user, user_by_email}

  -- What `roleWriter` writes through, if the store offers it.
  abbrev RoleWriter : Type 0
  RoleWriter = Option (ℕ → GoString → Roles → M S (Unit {0}))

  -- `stampRoleless`
  unfoldable pub stamp_roleless : RoleWriter → GoString → GoString → M S (Unit {0})
  stamp_roleless none email role = pure tt
  stamp_roleless (some set_user_role) email role = do
    held ← user_by_email email
    if held.role == [] then set_user_role held.id role [] else pure tt

  -- What `EnsureAdmin` does with the answer of `CreateUser`.
  unfoldable pub after_create : RoleWriter → GoString → GoString → Result (Unit {0}) → M S Bool
  unfolding stamp_roleless
  after_create writer email role (ok _) = pure true
  after_create writer email role (err e) =
      if is e email_taken then (do stamp_roleless writer email role; pure false) else fail e

  abbrev create_or_stamp : RoleWriter → User → GoString → M S Bool
  create_or_stamp writer u role s =
      let (answer, t) = create_user (record u { role = role }) s in
      after_create writer u.email role answer t

  -- `EnsureAdmin`
  unfoldable pub ensure_admin : RoleWriter → GoString → GoString → GoString → GoString → M S Bool
  unfolding after_create
  ensure_admin writer email name password role = do
    refuse_if (role == []) empty_role
    u ← lift (new_user platform (hash_password platform env) env email name password)
    create_or_stamp writer u role

  -- `CreateAdmin`, where `line` is what the scan of the standard input answers. The texts that it prints
  -- are left out.
  unfoldable pub create_admin : Result GoString → GoString → GoString → GoString → M S (Unit {0})
  create_admin line email name role = do
    refuse_if (role == []) empty_role
    password ← lift line
    u ← lift (new_user platform (hash_password platform env) env email name password)
    create_user (record u { role = role })

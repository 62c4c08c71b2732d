-- ===== src/Authkit/Cases.antt =====
-- The theorems about administration, sweeps, first accounts and responses, each at one run.
use gouncer.Base.{
  ℕ, ◌<◌, ◌≡◌, refl, true, false, some, List, [], ◌∷◌, GoString, codes, string_dec, ℕ_discrete,
  ◌==◌, string_eq, nat_eq, eq_refl, contains,
}
use gouncer.Base.Dict
use gouncer.Core.Errors.{error_eq, is, join, setup_misconfigured, email_taken}
use gouncer.Core.Results.{ok}
use gouncer.Core.Roles.{holds}
use gouncer.Core.Types.{User, Session}
use gouncer.Core.Identity.{new_user, clean_name, set_password}
use gouncer.Go.Utf8.{runes}
use gouncer.Go.Unicode.{is_control}
use gouncer.Go.Strings.{trim_space, contains_func, to_lower}
use gouncer.Core.Password.{hash_password}
use gouncer.Core.Examples.{plain_platform, first_env}
use gouncer.Authkit.Stores.{RoleSource, declared}
use gouncer.Authkit.Instance.{auth_store, admin_store}
use gouncer.Authkit.Admin.{Admin, role_change_held, held_role, set_account_role_from}
use gouncer.Authkit.Administration.{role_change_held-ok, set_account_role_from-ok}
use gouncer.Authkit.Reaper.{sweep}
use gouncer.Authkit.Reaping.{reaper, sweep-unexpired}
use gouncer.Authkit.Bootstrap.{ensure_admin}
use gouncer.Authkit.FirstAccounts.{HasRole, ensure_admin-HasRole}
use gouncer.Authkit.ErrorResponses.{respond_auth_error, internal_error}
use gouncer.Authkit.Responses.{respond_auth_error-IsFirst}
use gouncer.Testkit.State.{Store, new_store}
use gouncer.Testkit.Guard.{set_user_role, set_user_role_from}
use gouncer.Testkit.Accounts.{has_email, create_user, create_first_user, user_by_id}
use gouncer.Testkit.Sessions.{create_session, delete_expired_sessions}
use gouncer.Testkit.Sweep.{delete_expired_tokens}
use gouncer.Testkit.Calls.{Call, run}
use gouncer.Testkit.Invariant.{run-IsWellFormed}

abbrev source : RoleSource
source = record {
  known = λ role. role == codes "admin";
  outranks = λ caller target. caller == codes "admin";
}

abbrev administration : Admin
administration = record { privileged = codes "admin" ∷ []; roles = some source }

abbrev account : ℕ → GoString → GoString → User
account id email role = record {
  id = id;
  email = email;
  name = email;
  password_hash = [];
  disabled = false;
  confirmed = true;
  role = role;
  created_at = 0;
}

abbrev session : Session
session = record { token = []; token_hash = 5 ∷ []; user_id = 1; created_at = 0; expires_at = 50 }

abbrev calls : List Call
calls =
    Call.create_first_user (account 1 (codes "ada@example.org") (codes "admin"))
    ∷ Call.create_user (account 2 (codes "bob@example.org") [])
    ∷ Call.create_session session
    ∷ []

abbrev site : Store
site = run calls new_store

held-made :
    (role_change_held plain_platform
      (admin_store plain_platform)
      administration
      first_env
      (codes "admin")
      2
      (codes "admin")
      site).0
    ≡ ok []
unfolding role_change_held run new_store user_by_id create_session create_user create_first_user
    Dict.any Dict.insert string_dec ℕ_discrete Dict.lookup
held-made = refl

role_change_held-ok_example :
    (held_role plain_platform (admin_store plain_platform) administration first_env 2 site).0
    ≡ ok []
role_change_held-ok_example =
    (role_change_held-ok plain_platform (admin_store plain_platform) administration first_env source
      (codes "admin") 2 (codes "admin") [] site refl held-made).0

role-set :
    (set_account_role_from plain_platform
      (admin_store plain_platform)
      administration
      first_env
      1
      2
      []
      (codes "admin")
      site).0
    ≡ ok tt
unfolding set_account_role_from run new_store ℕ_discrete string_dec set_user_role_from
    create_session create_user create_first_user Dict.any Dict.insert Dict.lookup holds contains
role-set = refl

set_account_role_from-ok_example : declared (some source) (codes "admin") ≡ true
set_account_role_from-ok_example =
    (set_account_role_from-ok plain_platform administration first_env 1 2 [] (codes "admin") site
      role-set).1

swept : (sweep reaper 40 site).0.failed ≡ ok tt
unfolding sweep run new_store delete_expired_sessions delete_expired_tokens create_session
    create_user create_first_user Dict.any Dict.insert string_dec ℕ_discrete
swept = refl

left : Dict.lookup (5 ∷ []) (sweep reaper 40 site).1.sessions ≡ some session
unfolding sweep run new_store delete_expired_sessions delete_expired_tokens create_session
    create_user create_first_user Dict.any Dict.insert Dict.lookup string_dec ℕ_discrete
    Dict.delete_func
left = refl

sweep-unexpired_example : 40 < 50
sweep-unexpired_example =
    ((sweep-unexpired 40 site (run-IsWellFormed calls)).0 swept).0 (5 ∷ []) session left

admin-ensured :
    (ensure_admin plain_platform auth_store first_env
      (some set_user_role)
      (codes "Cyd@example.org")
      (codes "Cyd")
      (codes "correct horse")
      (codes "admin")
      site).0
    ≡ ok true
unfolding ensure_admin run new_store create_session create_user create_first_user Dict.any
    Dict.insert string_dec ℕ_discrete trim_space contains_func is_control to_lower clean_name
    new_user set_password runes hash_password
admin-ensured = refl

ensure_admin-HasRole_example :
    (u : User) × (new_user plain_platform
        (hash_password plain_platform first_env)
        first_env
        (codes "Cyd@example.org")
        (codes "Cyd")
        (codes "correct horse")
      ≡ ok u)
    × HasRole u.email
        (ensure_admin plain_platform auth_store first_env
          (some set_user_role)
          (codes "Cyd@example.org")
          (codes "Cyd")
          (codes "correct horse")
          (codes "admin")
          site).1
    × (true ≡ true
        → (Dict.any (has_email u.email) site.users ≡ false)
          × (Dict.lookup u.id
                (ensure_admin plain_platform auth_store first_env
                  (some set_user_role)
                  (codes "Cyd@example.org")
                  (codes "Cyd")
                  (codes "correct horse")
                  (codes "admin")
                  site).1.users
              ≡ some (record u { role = codes "admin" })))
    × (true ≡ false → (v : User) × (Dict.lookup v.id site.users ≡ some v) × (v.email ≡ u.email))
ensure_admin-HasRole_example =
    ensure_admin-HasRole plain_platform first_env (codes "Cyd@example.org") (codes "Cyd")
      (codes "correct horse") (codes "admin") true site (run-IsWellFormed calls) admin-ensured

-- A misconfigured setup that hides an email that is taken.
misconfigured : is (join setup_misconfigured email_taken) setup_misconfigured ≡ true
unfolding is
misconfigured = rw (eq_refl setup_misconfigured) refl

respond_auth_error-IsFirst_example :
    respond_auth_error (join setup_misconfigured email_taken) ≡ (500, internal_error)
respond_auth_error-IsFirst_example =
    (respond_auth_error-IsFirst (join setup_misconfigured email_taken) 500 internal_error).1
      misconfigured

-- ===== src/Testkit/Examples.antt =====
-- A store with an administrator, an invited one and a member, and the theorems at it.
use gouncer.Base.{
  ◌==◌, ◌||◌, ℕ, ◌≡◌, ◌≢◌, refl, Bool, true, false, none, some, List, [], ◌∷◌, GoString, arith,
  codes, nat_eq, string_eq, string_dec, ℕ_discrete, contains,
}
use gouncer.Base.Dict
use gouncer.Core.Errors.{last_privileged, token_not_found}
use gouncer.Core.Results.{ok, err}
use gouncer.Core.Roles.{Roles, holds}
use gouncer.Core.Types.{User, Session, Token, purpose_invite, purpose_reset}
use gouncer.Testkit.State.{Store, new_store}
use gouncer.Testkit.Accounts.{create_user, create_first_user}
use gouncer.Testkit.Sessions.{create_session, user_by_session}
use gouncer.Testkit.Guard.{set_role, any_role, set_user_disabled, set_user_role, privileged_account}
use gouncer.Testkit.Tokens.{create_token, replace_token, activate_by_token, reset_by_token}
use gouncer.Testkit.Sweep.{holds_live_invite, delete_expired_tokens, drop_all}
use gouncer.Testkit.Removal.{remove_all, is_dropped, drop_all-removes}
use gouncer.Testkit.Calls
use gouncer.Testkit.Calls.{Call, run, step}
use gouncer.Testkit.WellFormed.{IsWellFormed}
use gouncer.Testkit.Invariant.{run-IsWellFormed}
use gouncer.Testkit.Cover.{IsCovered, run-IsCovered, set_role_refused_iff}
use gouncer.Testkit.Access.{
  disable-HoldsNothing, user_by_session_iff, activate_by_token-ok, reset_by_token-ok,
  create_token-ok, replace_token-ok, HoldsNothing,
}
use gouncer.Testkit.Uncovering.{AllPrivileged, NonePrivileged, set_user_role-delete_expired_tokens}
use gouncer.Testkit.Sweeping.{
  is_stranded, delete_expired_tokens-users, delete_expired_tokens-tokens,
}

abbrev account : ℕ → GoString → GoString → Bool → User
account id email role confirmed = record {
  id = id;
  email = email;
  name = email;
  password_hash = [];
  disabled = false;
  confirmed = confirmed;
  role = role;
  created_at = 0;
}

abbrev token_under : ℕ → ℕ → GoString → ℕ → Token
token_under hash id purpose expires = record {
  token = [];
  token_hash = hash ∷ [];
  user_id = id;
  purpose = purpose;
  created_at = 0;
  expires_at = expires;
}

abbrev session_under : ℕ → ℕ → ℕ → Session
session_under hash id expires = record {
  token = [];
  token_hash = hash ∷ [];
  user_id = id;
  created_at = 0;
  expires_at = expires;
}

abbrev admins : Roles
admins = codes "admin" ∷ []

abbrev history : List Call
history =
    Call.create_first_user (account 1 (codes "ada") (codes "admin") true)
    ∷ Call.create_user (account 2 (codes "bob") (codes "admin") false)
    ∷ Call.create_user (account 3 (codes "eve") (codes "member") true)
    ∷ Call.create_session (session_under 7 1 100)
    ∷ Call.create_token 0 (token_under 8 2 purpose_invite 50) 1
    ∷ Call.create_token 0 (token_under 9 3 purpose_reset 60) 2
    ∷ []

-- The store after that history.
site : Store
unfolding run new_store Calls.step Dict.lookup create_token create_session create_user
    create_first_user Dict.any Dict.insert string_dec ℕ_discrete Dict.count holds contains
site = run history new_store

site-IsWellFormed : IsWellFormed site
unfolding site
site-IsWellFormed = run-IsWellFormed history

-- The same store, read back.
site_users : Dict.lookup 2 site.users ≡ some (account 2 (codes "bob") (codes "admin") false)
unfolding site
site_users = refl

site-IsCovered : IsCovered admins site.users
unfolding site
site-IsCovered = (1, account 1 (codes "ada") (codes "admin") true, refl, refl)

-- Ada is demoted while the invited administrator covers.
abbrev demotion : List Call
demotion =
    Call.set_user_role 1 (codes "member") admins
    ∷ Call.set_user_disabled_under_cover 2 true admins
    ∷ []

run-IsWellFormed_example : IsWellFormed (run history new_store)
run-IsWellFormed_example = run-IsWellFormed history

run-IsCovered_example : IsCovered admins (run demotion site).users
run-IsCovered_example =
    run-IsCovered admins demotion site (refl, (refl, tt)) site-IsWellFormed site-IsCovered

-- Ada alone.
lone : Store
unfolding site
lone = run (Call.create_first_user (account 1 (codes "ada") (codes "admin") true) ∷ []) new_store

lone-IsWellFormed : IsWellFormed lone
unfolding lone
lone-IsWellFormed =
    run-IsWellFormed (Call.create_first_user (account 1 (codes "ada") (codes "admin") true) ∷ [])

nobody_else :
    (k : ℕ) (v : User)
    → Dict.lookup k lone.users ≡ some v
    → k ≢ 1
    → privileged_account admins v ≡ false
unfolding lone
nobody_else k v found apart = ground arith

set_role_refused_iff_example :
    (set_role 1 (codes "member") admins any_role lone).0 ≡ err last_privileged
unfolding lone
set_role_refused_iff_example =
    (set_role_refused_iff 1 (codes "member") admins any_role lone
        (account 1 (codes "ada") (codes "admin") true) lone-IsWellFormed refl refl refl).1
      (refl, refl, nobody_else)

disable-HoldsNothing_example : HoldsNothing 1 (set_user_disabled 1 true site).1
unfolding site set_user_disabled
disable-HoldsNothing_example =
    (disable-HoldsNothing 1 (codes "admin") admins site site-IsWellFormed).0 refl

user_by_session_iff_example :
    (user_by_session (7 ∷ []) 99 site).0 ≡ ok (account 1 (codes "ada") (codes "admin") true)
unfolding site
user_by_session_iff_example =
    (user_by_session_iff (7 ∷ []) 99 (account 1 (codes "ada") (codes "admin") true) site refl).1
      (session_under 7 1 100, refl, omega arith, refl, refl)

activate_by_token-ok_example :
    (activate_by_token (8 ∷ []) 41 (5 ∷ []) (activate_by_token (8 ∷ []) 40 (6 ∷ []) site).1).0
    ≡ err token_not_found
unfolding site activate_by_token Dict.delete Dict.delete_func
activate_by_token-ok_example =
    (activate_by_token-ok (8 ∷ []) 40 (6 ∷ []) site 2 site-IsWellFormed refl).3 41 (5 ∷ [])

reset_by_token-ok_example :
    (reset_by_token (9 ∷ []) 42 (5 ∷ []) (reset_by_token (9 ∷ []) 41 (6 ∷ []) site).1).0
    ≡ err token_not_found
unfolding site reset_by_token Dict.delete Dict.delete_func
reset_by_token-ok_example =
    (reset_by_token-ok (9 ∷ []) 41 (6 ∷ []) site 3 site-IsWellFormed refl).3 42 (5 ∷ [])

create_token-ok_example :
    Dict.lookup (4 ∷ []) (create_token 10 (token_under 4 3 purpose_reset 60) 2 site).1.tokens
    ≡ some (token_under 4 3 purpose_reset 60)
unfolding site
create_token-ok_example = (create_token-ok 10 (token_under 4 3 purpose_reset 60) 2 site refl).1

replace_token-ok_example :
    Dict.lookup (4 ∷ []) (replace_token (token_under 4 2 purpose_invite 90) site).1.tokens
    ≡ some (token_under 4 2 purpose_invite 90)
unfolding site replace_token
replace_token-ok_example =
    (replace_token-ok (token_under 4 2 purpose_invite 90) site site-IsWellFormed refl).0 (4 ∷ [])

-- Bob's invite has expired at 50.
delete_expired_tokens-users_example : Dict.lookup 2 (delete_expired_tokens 50 site).1.users ≡ none
unfolding site delete_expired_tokens
delete_expired_tokens-users_example = delete_expired_tokens-users 50 2 1 site site-IsWellFormed refl

delete_expired_tokens-tokens_example :
    Dict.lookup (9 ∷ []) (delete_expired_tokens 50 site).1.tokens
    ≡ some (token_under 9 3 purpose_reset 60)
unfolding site delete_expired_tokens
delete_expired_tokens-tokens_example =
    (delete_expired_tokens-tokens 50 1 (9 ∷ []) site site-IsWellFormed refl).1

member_covers_nothing :
    (id : ℕ) (email : GoString)
    → privileged_account admins (account id email (codes "member") true) ≡ false
unfolding holds contains string_dec ℕ_discrete
member_covers_nothing id email = refl

-- Of the accounts beside Ada's, Bob's alone is privileged, and it was never activated.
beside_stranded : AllPrivileged admins (λ k. k == 1 || is_stranded 50 site k) site
unfolding site holds_live_invite Dict.lookup ℕ_discrete
beside_stranded k x found enabled given = elim (ℕ_discrete k 1) [
  | yes ada ↦ rw ada refl
  | no away ↦ elim (ℕ_discrete k 2) [
    | yes bob ↦ rw bob refl
    | no other ↦ absurd (ground (arith, member_covers_nothing 3 (codes "eve")))
  ]
]

set_user_role-delete_expired_tokens_example :
    ((set_user_role 1 (codes "member") admins site).0 ≡ ok tt)
    × NonePrivileged admins
        (delete_expired_tokens 50 (set_user_role 1 (codes "member") admins site).1).1
unfolding site
set_user_role-delete_expired_tokens_example =
    set_user_role-delete_expired_tokens admins 1 2 50 (codes "member") site
      (account 1 (codes "ada") (codes "admin") true) (account 2 (codes "bob") (codes "admin") false)
      site-IsWellFormed refl refl refl refl (λ e. ground arith) refl refl refl beside_stranded

drop_all-removes_example :
    drop_all (3 ∷ 2 ∷ 2 ∷ []) 70 site ≡ remove_all (is_dropped (3 ∷ 2 ∷ 2 ∷ []) 70 site) site
drop_all-removes_example = drop_all-removes (3 ∷ 2 ∷ 2 ∷ []) 70 site

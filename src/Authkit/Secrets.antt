-- ===== src/Authkit/Secrets.antt =====
-- No flow lets the store of testkit keep the secret of a token.
use gouncer.Base.{inl, inr, Bool-cases, not, ◌||◌, List, [], ◌∷◌, GoString, ◌==◌, string_eq}
use gouncer.Core.Results.{Result-cases}
use gouncer.Core.Platform.{Platform, Env}
use gouncer.Core.Types.{User, purpose_invite, purpose_reset}
use gouncer.Core.Identity.{new_invited_user}
use gouncer.Core.Tokens.{hash_token}
use gouncer.Authkit.Stores.{declared}
use gouncer.Authkit.Instance.{invite_store}
use gouncer.Authkit.Invites.{
  Invites, create_within, hash_of, invite, resend_invite, redeem_invite, request_reset,
  redeem_reset, normalized,
}
use gouncer.Testkit.State.{Store}
use gouncer.Testkit.Accounts.{create_user}
use gouncer.Testkit.Tokens.{create_token, replace_token}
use gouncer.Authkit.SecretFree.{
  IsSecretFree, create_token-KeepsFree, replace_token-KeepsFree, user_by_email_cases,
  issue-IsSecretFree, create_user-IsSecretFree, activate_by_token-IsSecretFree,
  reset_by_token-IsSecretFree,
}

-- A call of one of the flows.
pub data Flow : Type 0 where
  inviting : GoString → GoString → GoString → Flow
  resending requesting : GoString → Flow
  redeeming resetting : GoString → GoString → Flow

-- What a call leaves, whatever it answers.
unfoldable pub after : Platform → Invites → Env → Flow → Store → Store
unfolding invite resend_invite redeem_invite request_reset redeem_reset
after platform i env (inviting email name role) s =
    (invite platform (invite_store env) i env email name role s).1
after platform i env (resending email) s =
    (resend_invite platform (invite_store env) i env email s).1
after platform i env (requesting email) s =
    (request_reset platform (invite_store env) i env email s).1
after platform i env (redeeming token password) s =
    (redeem_invite platform (invite_store env) i env token password s).1
after platform i env (resetting token password) s =
    (redeem_reset platform (invite_store env) i env token password s).1

-- A history of calls, each at an instant of its own.
unfoldable pub after_all : Platform → Invites → List (Env × Flow) → Store → Store
unfolding after
after_all platform i [] s = s
after_all platform i ((env, f) ∷ fs) s = after_all platform i fs (after platform i env f s)

module _ (platform : Platform) (i : Invites) (env : Env) (s : Store) (free : IsSecretFree s) where
  invite-IsSecretFree :
      (email name role : GoString)
      → IsSecretFree (invite platform (invite_store env) i env email name role s).1
  unfolding invite create_within
  invite-IsSecretFree email name role = elim (Bool-cases (declared i.roles role)) [
    | inr undeclared ↦ rw undeclared free
    | inl known ↦ elim (Result-cases (new_invited_user platform env email name)) [
      | inl (e, failed) ↦ rw known (rw failed free)
      | inr (u, made) ↦
          let held : User = record u { role = role } in
          let stored = create_user-IsSecretFree held s free in
          elim (Result-cases (create_user held s).0) [
            | inl (e, failed) ↦ rw known (rw made (rw failed stored))
            | inr (_, created) ↦ rw known (
                rw made (
                  rw created (
                    issue-IsSecretFree platform i env u.id purpose_invite i.invite_ttl
                      (λ t. create_token env.now t 1) (create_user held s).1
                      (create_token-KeepsFree env.now 1) stored)))
          ]
    ]
  ]

  resend_invite-IsSecretFree :
      (email : GoString) → IsSecretFree (resend_invite platform (invite_store env) i env email s).1
  unfolding resend_invite
  resend_invite-IsSecretFree email =
      elim (user_by_email_cases (normalized platform (invite_store env) i env email) s) [
        | inl (e, failed) ↦ rw failed free
        | inr (u, found) ↦ elim (Bool-cases u.disabled) [
          | inl off ↦ rw found (rw off free)
          | inr on ↦ elim (Bool-cases (u.confirmed || not (u.password_hash == []))) [
            | inl active ↦ rw found (rw on (rw active free))
            | inr pending ↦ rw found (
                rw on (
                  rw pending (
                    issue-IsSecretFree platform i env u.id purpose_invite i.invite_ttl replace_token
                      s replace_token-KeepsFree free)))
          ]
        ]
      ]

  request_reset-IsSecretFree :
      (email : GoString) → IsSecretFree (request_reset platform (invite_store env) i env email s).1
  unfolding request_reset create_within
  request_reset-IsSecretFree email =
      elim (user_by_email_cases (normalized platform (invite_store env) i env email) s) [
        | inl (e, failed) ↦ rw failed free
        | inr (u, found) ↦ elim (Bool-cases (u.disabled || not u.confirmed)) [
          | inl off ↦ rw found (rw off free)
          | inr on ↦ rw found (
              rw on (
                issue-IsSecretFree platform i env u.id purpose_reset i.reset_ttl
                  (λ t. create_token env.now t i.reset_live) s
                  (create_token-KeepsFree env.now i.reset_live) free))
        ]
      ]

  redeem_invite-IsSecretFree :
      (token password : GoString)
      → IsSecretFree (redeem_invite platform (invite_store env) i env token password s).1
  unfolding redeem_invite
  redeem_invite-IsSecretFree token password =
      elim (Result-cases (hash_of platform (invite_store env) i env password)) [
        | inl (_, failed) ↦ rw failed free
        | inr (hash, hashed) ↦
            rw hashed
              (activate_by_token-IsSecretFree (hash_token platform token) env.now hash s free)
      ]

  redeem_reset-IsSecretFree :
      (token password : GoString)
      → IsSecretFree (redeem_reset platform (invite_store env) i env token password s).1
  unfolding redeem_reset
  redeem_reset-IsSecretFree token password =
      elim (Result-cases (hash_of platform (invite_store env) i env password)) [
        | inl (_, failed) ↦ rw failed free
        | inr (hash, hashed) ↦
            rw hashed (reset_by_token-IsSecretFree (hash_token platform token) env.now hash s free)
      ]

after-IsSecretFree :
    (platform : Platform) (i : Invites) (env : Env) (f : Flow) (s : Store)
    → IsSecretFree s
    → IsSecretFree (after platform i env f s)
unfolding after
after-IsSecretFree platform i env (inviting email name role) s free =
    invite-IsSecretFree platform i env s free email name role
after-IsSecretFree platform i env (resending email) s free =
    resend_invite-IsSecretFree platform i env s free email
after-IsSecretFree platform i env (requesting email) s free =
    request_reset-IsSecretFree platform i env s free email
after-IsSecretFree platform i env (redeeming token password) s free =
    redeem_invite-IsSecretFree platform i env s free token password
after-IsSecretFree platform i env (resetting token password) s free =
    redeem_reset-IsSecretFree platform i env s free token password

-- However often the five flows are called, and whatever they answer, a store whose tokens carry no
-- secret, and lie under distinct hashes, stays one: only hashes are kept.
pub after_all-IsSecretFree :
    (platform : Platform) (i : Invites) (calls : List (Env × Flow)) (s : Store)
    → IsSecretFree s
    → IsSecretFree (after_all platform i calls s)
unfolding after_all
after_all-IsSecretFree platform i [] s free = free
after_all-IsSecretFree platform i ((env, f) ∷ fs) s free =
    after_all-IsSecretFree platform i fs (after platform i env f s)
      (after-IsSecretFree platform i env f s free)

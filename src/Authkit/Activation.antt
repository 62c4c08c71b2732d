-- ===== src/Authkit/Activation.antt =====
-- The steps from an invite to a login, over the store of testkit.
use gouncer.Base.{
  ℕ, ◌<◌, ◌≡◌, refl, sym, inl, inr, true, false, none, some, [], GoString, arith, nat_eq, string_eq,
  eq_refl, Option-cases,
}
use gouncer.Base.Dict
use gouncer.Base.Int.{ℤ, add}
use gouncer.Go.Strings.{trim_space, to_lower}
use gouncer.Core.Errors.{token_not_found}
use gouncer.Core.Results.{ok, err, Result-cases}
use gouncer.Core.Platform.{Platform, Env}
use gouncer.Core.Types.{User, Token, purpose_invite}
use gouncer.Core.Identity.{new_invited_user, set_password}
use gouncer.Core.Identity.Accounts.{new_identity-IsIdentity}
use gouncer.Core.Tokens.{hash_token, new_token}
use gouncer.Core.Password.{hash_password, verify_password}
use gouncer.Authkit.Stores.{declared}
use gouncer.Authkit.Instance.{auth_store, invite_store}
use gouncer.Authkit.Invites.{Invites, create_within, issue, hash_of, invite, redeem_invite}
use gouncer.Authkit.Service.{Handlers, identity_of, authenticate}
use gouncer.Testkit.State.{Store}
use gouncer.Testkit.Accounts.{has_email, put_user, user_by_email}
use gouncer.Testkit.Tokens.{put_token, spend, activated, activate_by_token}
use gouncer.Testkit.Cases.{create_user_cases, create_token_cases}
use gouncer.Testkit.Calls.{Call, step}
use gouncer.Testkit.WellFormed.{IsWellFormed, spend-IsWellFormed, rewrite-IsWellFormed}

pub new_token-ok :
    (platform : Platform) (env : Env) (id : ℕ) (purpose : GoString) (ttl : ℤ) (t : Token)
    → new_token platform env id purpose ttl ≡ ok t
    → (t.token_hash ≡ hash_token platform t.token)
      × (t.user_id ≡ id)
      × (t.purpose ≡ purpose)
      × (t.expires_at ≡ add env.now ttl)
unfolding new_token
new_token-ok platform env id purpose ttl t made =
    (ground arith, ground arith, ground arith, ground arith)

pub hash_of-ok :
    (platform : Platform) (i : Invites) (env : Env) (password hash : GoString)
    → hash_of platform (invite_store env) i env password ≡ ok hash
    → hash_password platform env password ≡ ok hash
unfolding hash_of set_password
hash_of-ok platform i env password hash made = ground arith

-- In a well-formed store the email of an account finds it.
pub user_by_email-lookup :
    (id : ℕ) (u : User) (s : Store)
    → IsWellFormed s
    → s.faults.lookup_err ≡ none
    → Dict.lookup id s.users ≡ some u
    → user_by_email u.email s ≡ (ok u, s)
unfolding user_by_email
user_by_email-lookup id u s w calm held =
    elim (Option-cases (Dict.find (has_email u.email) s.users)) [
      | inl missed ↦ absurd (
          ground (
            arith,
            Dict.lookup-find-none id u (has_email u.email) s.users held missed,
            eq_refl u.email,
          ))
      | inr (v, found) ↦
          let (k, there, same) =
            Dict.find-lookup (has_email u.email) v s.users w.users_keyed.nodup found in
          let one : k ≡ id = w.emails_distinct k id v u there held (ground arith) in ground arith
    ]

pub invite-ok :
    (platform : Platform) (i : Invites) (env : Env) (email name role : GoString) (tok : Token)
    (s : Store)
    → (invite platform (invite_store env) i env email name role s).0 ≡ ok tok
    → (u : User) × (new_invited_user platform env email name ≡ ok u)
      × (tok.token_hash ≡ hash_token platform tok.token)
      × (tok.user_id ≡ u.id)
      × (tok.purpose ≡ purpose_invite)
      × (tok.expires_at ≡ add env.now i.invite_ttl)
      × (declared i.roles role ≡ true)
      × ((invite platform (invite_store env) i env email name role s).1
          ≡ step
              (Call.create_token env.now (record tok { token = [] }) 1)
              (step (Call.create_user (record u { role = role })) s))
      × (step
            (Call.create_token env.now (record tok { token = [] }) 1)
            (step (Call.create_user (record u { role = role })) s)
          ≡ put_token (record tok { token = [] }) (put_user u.id (record u { role = role }) s))
unfolding invite issue create_within step
invite-ok platform i env email name role tok s done =
    elim (Result-cases (new_invited_user platform env email name)) [
      | inl (e, failed) ↦ absurd (ground arith)
      | inr (u, made) ↦ elim (create_user_cases (record u { role = role }) s) [
        | inl (refused, _) ↦ absurd (ground arith)
        | inr (free, created) ↦
            elim (Result-cases (new_token platform env u.id purpose_invite i.invite_ttl)) [
              | inl (e, failed) ↦ absurd (ground arith)
              | inr (t, issued) ↦
                  let after : Store = put_user u.id (record u { role = role }) s in
                  elim (create_token_cases env.now (record t { token = [] }) 1 after) [
                    | inl (refused, _) ↦ absurd (ground arith)
                    | inr (v, held, enabled, few, stored) ↦
                        let (hashed, own, for, expires) =
                          new_token-ok platform env u.id purpose_invite i.invite_ttl t issued in
                        (
                          u,
                          made,
                          ground arith,
                          ground arith,
                          ground arith,
                          ground arith,
                          ground arith,
                          ground arith,
                          ground arith,
                        )
                  ]
            ]
      ]
    ]

pub new_invited_user-ok :
    (platform : Platform) (env : Env) (email name : GoString) (u : User)
    → new_invited_user platform env email name ≡ ok u
    → (u.email ≡ to_lower platform.to_lower (trim_space email))
      × (u.disabled ≡ false)
      × (u.confirmed ≡ false)
unfolding new_invited_user
new_invited_user-ok platform env email name u made =
    let (own, unconfirmed, _) = new_identity-IsIdentity platform env email name u made in
    (own.own_email, own.enabled, unconfirmed)

-- An activation of a live invite of an enabled and unconfirmed account.
pub activated-ok :
    (hash : GoString) (now : ℕ) (password_hash : GoString) (x : Token) (u : User) (s : Store)
    → s.faults.token_err ≡ none
    → s.faults.activate_err ≡ none
    → Dict.lookup hash s.tokens ≡ some x
    → x.purpose ≡ purpose_invite
    → now < x.expires_at
    → Dict.lookup x.user_id s.users ≡ some u
    → u.disabled ≡ false
    → u.confirmed ≡ false
    → activate_by_token hash now password_hash s
      ≡ (ok x.user_id, spend hash (put_user x.user_id (activated password_hash u) s))
unfolding activate_by_token
activated-ok hash now password_hash x u s unforced calm found for early held enabled unconfirmed =
    ground arith

-- An enabled account of a well-formed store logs in with the password of its hash.
pub authenticate-ok :
    (platform : Platform) (h : Handlers) (env : Env) (email password : GoString) (id : ℕ) (u : User)
    (s : Store)
    → IsWellFormed s
    → s.faults.lookup_err ≡ none
    → Dict.lookup id s.users ≡ some u
    → u.email ≡ to_lower platform.to_lower (trim_space email)
    → u.disabled ≡ false
    → verify_password platform u.password_hash password ≡ true
    → (authenticate platform auth_store h env email password s).0 ≡ ok (identity_of h u)
unfolding authenticate
authenticate-ok platform h env email password id u s w quiet held own enabled matches =
    rw (sym own) (rw (user_by_email-lookup id u s w quiet held) (ground arith))

module _ (platform : Platform) (i : Invites) (env env' : Env)
    (email name role password hash : GoString) (tok : Token) (u : User) (s : Store)
    (w : IsWellFormed s) (unforced : s.faults.token_err ≡ none)
    (calm : s.faults.activate_err ≡ none) (made : new_invited_user platform env email name ≡ ok u)
    (token_hashed : tok.token_hash ≡ hash_token platform tok.token) (own : tok.user_id ≡ u.id)
    (for : tok.purpose ≡ purpose_invite) (early : env'.now < tok.expires_at)
    (hashed : hash_of platform (invite_store env') i env' password ≡ ok hash) where
  abbrev invited : User
  invited = record u { role = role }

  abbrev kept : Token
  kept = record tok { token = [] }

  abbrev pub stored : Store
  stored = put_token kept (put_user u.id invited s)

  abbrev pub redeemed : Store
  redeemed =
      spend (hash_token platform tok.token) (put_user tok.user_id (activated hash invited) stored)

  pub redeem_invite-ok :
      redeem_invite platform (invite_store env') i env' tok.token password stored
      ≡ (ok tok.user_id, redeemed)
  unfolding redeem_invite
  redeem_invite-ok =
      let (_, enabled, unconfirmed) = new_invited_user-ok platform env email name u made in
      let there : Dict.lookup (hash_token platform tok.token) stored.tokens ≡ some kept = ground (
        arith,
        Dict.lookup-insert (hash_token platform tok.token) tok.token_hash kept s.tokens,
        eq_refl tok.token_hash,
      ) in
      let held : Dict.lookup tok.user_id stored.users ≡ some invited =
        ground (arith, Dict.lookup-insert tok.user_id u.id invited s.users) in
      rw hashed (
        activated-ok (hash_token platform tok.token) env'.now hash kept invited stored unforced calm
          there for early held enabled unconfirmed)

  pub spent :
      Dict.NodupKeys stored.tokens
      → Dict.lookup (hash_token platform tok.token) redeemed.tokens ≡ none
  spent nodup = ground (
    arith,
    Dict.lookup-delete (hash_token platform tok.token) (hash_token platform tok.token) stored.tokens
        nodup,
    eq_refl (hash_token platform tok.token),
  )

  pub redeemed-IsWellFormed : IsWellFormed stored → IsWellFormed redeemed
  redeemed-IsWellFormed v =
      let held : Dict.lookup tok.user_id stored.users ≡ some invited =
        ground (arith, Dict.lookup-insert tok.user_id u.id invited s.users) in
      spend-IsWellFormed (hash_token platform tok.token)
        (put_user tok.user_id (activated hash invited) stored)
        (rewrite-IsWellFormed tok.user_id invited (activated hash invited) stored held refl refl v)

  pub redeemed-lookup : Dict.lookup tok.user_id redeemed.users ≡ some (activated hash invited)
  redeemed-lookup = ground (
    arith,
    Dict.lookup-insert tok.user_id tok.user_id (activated hash invited) stored.users,
    eq_refl tok.user_id,
  )

  pub redeem_invite_again :
      IsWellFormed stored
      → (redeem_invite platform (invite_store env') i env' tok.token password redeemed).0
        ≡ err token_not_found
  unfolding redeem_invite activate_by_token
  redeem_invite_again v = rw hashed (ground (arith, spent v.tokens_keyed.nodup))

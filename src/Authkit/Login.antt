-- ===== src/Authkit/Login.antt =====
-- Who a login lets in, over any store, and the life of a session, over the store of testkit.
use gouncer.Base.{
  ℕ, ◌≡◌, refl, ◌≢◌, ◌↔◌, ◌⊎◌, inl, inr, true, false, none, some, [], GoString, arith, ltb, nat_eq,
  string_eq,
}
use gouncer.Base.Dict
use gouncer.Base.Int.{add}
use gouncer.Go.Strings.{trim_space, to_lower}
use gouncer.Core.Errors.{Error, invalid_credentials, user_not_found, session_not_found, is}
use gouncer.Core.Results.{Result, ok, err, Result-cases}
use gouncer.Core.Platform.{Platform, Env}
use gouncer.Core.Types.{User, Session}
use gouncer.Core.Tokens.{hash_token, new_session}
use gouncer.Core.Password.{verify_password}
use gouncer.Authkit.Stores.{AuthStore}
use gouncer.Authkit.Instance.{auth_store}
use gouncer.Authkit.Service.{
  Handlers, Identity, Cookie, identity_of, session_cookie, authenticate, start_session, end_session,
  session_identity,
}
use gouncer.Testkit.State.{Store}
use gouncer.Testkit.Sessions.{create_session, user_by_session, delete_session}

-- Over any store, a login answers an identity exactly when the store finds an account by the email,
-- trimmed and lowered, that is enabled and whose hash the password matches, and it is the identity of
-- that account. A login that answers an error answers the one of wrong credentials or an error of the
-- store, which is never that of an unknown account.
pub authenticate_iff :
    {S : Type 0} (platform : Platform) (store : AuthStore S) (h : Handlers) (env : Env)
    (email password : GoString) (s : S)
    → let found : Result User =
        (store.user_by_email (to_lower platform.to_lower (trim_space email)) s).0 in
      let answer : Result Identity = (authenticate platform store h env email password s).0 in
      ((who : Identity)
        → (answer ≡ ok who) ↔ (
            (u : User) × (found ≡ ok u)
            × (verify_password platform u.password_hash password ≡ true)
            × (u.disabled ≡ false)
            × (who ≡ identity_of h u)))
      × ((e : Error)
          → answer ≡ err e
          → (e ≡ invalid_credentials) ⊎ ((found ≡ err e) × (is e user_not_found ≡ false)))
unfolding authenticate
authenticate_iff platform store h env email password s =
    elim (Result-cases (store.user_by_email (to_lower platform.to_lower (trim_space email)) s).0) [
      | inl (e, lost) ↦ (λ who. (λ a. ground arith, λ b. ground arith), λ f a. ground arith)
      | inr (u, found) ↦ (λ who. (λ a. ground arith, λ b. ground arith), λ f a. ground arith)
    ]

-- The instant of a call, moved.
abbrev pub at : ℕ → Env → Env
at now env = record env { now = now }

new_session-ok :
    (platform : Platform) (env : Env) (id : ℕ) (x : Session)
    → new_session platform env id ≡ ok x
    → (x.token_hash ≡ hash_token platform x.token) × (x.user_id ≡ id) × (x.created_at ≡ env.now)
unfolding new_session
new_session-ok platform env id x made = (ground arith, ground arith, ground arith)

start_session-ok :
    (platform : Platform) (h : Handlers) (env : Env) (id : ℕ) (cookie : Cookie) (s : Store)
    → (start_session platform auth_store h env id s).0 ≡ ok cookie
    → (x : Session) × (x.token_hash ≡ hash_token platform cookie.value)
      × (x.user_id ≡ id)
      × (x.expires_at ≡ add env.now h.ttl)
      × ((start_session platform auth_store h env id s).1
          ≡ record s { sessions = Dict.insert x.token_hash x s.sessions })
unfolding start_session create_session session_cookie
start_session-ok platform h env id cookie s started =
    elim (Result-cases (new_session platform env id)) [
      | inl (e, failed) ↦ absurd (ground arith)
      | inr (x, made) ↦
          let (hashed, own, created) = new_session-ok platform env id x made in
          (
            record x { expires_at = add x.created_at h.ttl },
            ground arith,
            own,
            rw created refl,
            ground arith,
          )
    ]

-- Where a session starts for an account of the store, no error is forced on sessions and deletes,
-- and sessions lie under distinct hashes, the token of its cookie answers the identity of that
-- account at an instant before the session's end if the account is enabled, and the error of an
-- absent session if it is disabled or the instant is not before the end. Once the session is ended
-- by that token, if it is not empty, the token answers that error too.
pub start_session-session_identity :
    (platform : Platform) (h : Handlers) (env : Env) (id : ℕ) (cookie : Cookie) (u : User)
    (later : ℕ) (s : Store)
    → s.faults.session_err ≡ none
    → s.faults.delete_err ≡ none
    → Dict.NodupKeys s.sessions
    → Dict.lookup id s.users ≡ some u
    → (start_session platform auth_store h env id s).0 ≡ ok cookie
    → let t : Store = (start_session platform auth_store h env id s).1 in
      let ended : Store = (end_session platform auth_store h (at later env) cookie.value t).1 in
      ((session_identity platform auth_store h (at later env) cookie.value t).0
        ≡ (elim (ltb later (add env.now h.ttl)) [
          | false ↦ err session_not_found
          | true ↦ elim u.disabled [ true ↦ err session_not_found | false ↦ ok (identity_of h u) ]
        ]))
      × (cookie.value ≢ []
          → (session_identity platform auth_store h (at later env) cookie.value ended).0
            ≡ err session_not_found)
unfolding session_identity end_session user_by_session delete_session
start_session-session_identity platform h env id cookie u later s quiet undelete nodup held
      started =
    let (x, hashed, own, expires, left) = start_session-ok platform h env id cookie s started in
    let there : Dict.lookup (hash_token platform cookie.value)
          (Dict.insert x.token_hash x s.sessions)
        ≡ some x =
      ground
        (arith, Dict.lookup-insert (hash_token platform cookie.value) x.token_hash x s.sessions) in
    let gone =
      Dict.lookup-delete (hash_token platform cookie.value) (hash_token platform cookie.value)
        (Dict.insert x.token_hash x s.sessions)
        (Dict.insert-NodupKeys x.token_hash x s.sessions nodup) in
    (rw left (ground arith), λ given. rw left (ground arith))

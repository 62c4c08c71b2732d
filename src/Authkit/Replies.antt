-- ===== src/Authkit/Replies.antt =====
-- When a login sets a cookie, and whom a session lets through.
use gouncer.Base.{◌≡◌, refl, ◌≢◌, ◌↔◌, inl, inr, none, some, arith, Bool-cases}
use gouncer.Core.Errors.{Error, is, invalid_credentials, body_too_large}
use gouncer.Core.Results.{Result, ok, err, Result-cases}
use gouncer.Core.Platform.{Platform, Env}
use gouncer.Authkit.Stores.{AuthStore}
use gouncer.Authkit.Service.{Handlers, Identity, Cookie, authenticate, start_session}
use gouncer.Authkit.Http.{identity_body, Reply, Credentials, respond_decode_error, login}

-- A login of a body that decodes to credentials.
login_decoded :
    {S : Type 0} (platform : Platform) (store : AuthStore S) (h : Handlers) (env : Env)
    (body : Credentials) (s : S)
    → let reply : Reply = (login platform store h env (ok body) s).0 in
      let known : Result Identity × S =
        authenticate platform store h env body.email body.password s in
      ((cookie : Cookie)
        → (reply.cookie ≡ some cookie) ↔ (
            (who : Identity) × (known.0 ≡ ok who)
            × ((start_session platform store h env who.id known.1).0 ≡ ok cookie)
            × (reply.status ≡ 200)
            × (reply.body ≡ identity_body who)))
      × (reply.cookie ≡ none → reply.status ≢ 200)
unfolding login
login_decoded platform store h env body s =
    elim (Result-cases (authenticate platform store h env body.email body.password s).0) [
      | inl (e, failed) ↦ elim (Bool-cases (is e invalid_credentials)) [
        | inl wrong ↦ (
          λ cookie. (λ a. absurd (ground arith), λ b. absurd (ground arith)),
          λ a b. ground arith,
        )
        | inr other ↦ (
          λ cookie. (λ a. absurd (ground arith), λ b. absurd (ground arith)),
          λ a b. ground arith,
        )
      ]
      | inr (who, known) ↦
          elim (Result-cases
            (start_session platform store h env who.id
              (authenticate platform store h env body.email body.password s).1).0) [
                | inl (e, failed) ↦ (
                  λ cookie. (λ a. absurd (ground arith), λ b. absurd (ground arith)),
                  λ a b. ground arith,
                )
                | inr (c, started) ↦ (
                  λ cookie. (
                    λ a. (who, known, ground arith, ground arith, ground arith),
                    λ b. ground arith,
                  ),
                  λ a b. absurd (ground arith),
                )
              ]
    ]

-- A login of a body that does not decode.
login_undecoded :
    {S : Type 0} (platform : Platform) (store : AuthStore S) (h : Handlers) (env : Env) (e : Error)
    (s : S)
    → let reply : Reply = (login platform store h env (err e) s).0 in
      (reply.cookie ≡ none) × (reply.status ≢ 200)
unfolding login respond_decode_error
login_undecoded platform store h env e s = elim (Bool-cases (is e body_too_large)) [
  | inl large ↦ (ground arith, λ b. ground arith)
  | inr other ↦ (ground arith, λ b. ground arith)
]

-- Over any store, a login replies with a cookie exactly when the body decodes to credentials that
-- authenticate and a session starts for their identity; the reply then has status 200, that identity
-- for its body, and that session's cookie. Without a cookie the reply has another status.
pub login_iff :
    {S : Type 0} (platform : Platform) (store : AuthStore S) (h : Handlers) (env : Env)
    (decoded : Result Credentials) (s : S)
    → let reply : Reply = (login platform store h env decoded s).0 in
      ((cookie : Cookie)
        → (reply.cookie ≡ some cookie) ↔ (
            (body : Credentials) × (who : Identity) × (decoded ≡ ok body)
            × ((authenticate platform store h env body.email body.password s).0 ≡ ok who)
            × ((start_session platform store h env who.id
                  (authenticate platform store h env body.email body.password s).1).0
                ≡ ok cookie)
            × (reply.status ≡ 200)
            × (reply.body ≡ identity_body who)))
      × (reply.cookie ≡ none → reply.status ≢ 200)
login_iff platform store h env (err e) s =
    let (bare, other) = login_undecoded platform store h env e s in
    (
      λ cookie. (λ a. absurd (ground arith), λ (_, _, failed, _, _, _, _). absurd (ground arith)),
      λ _. other,
    )
login_iff platform store h env (ok body) s =
    let (replies, bare) = login_decoded platform store h env body s in
    (
      λ cookie. (
        λ a.
            let (who, known, started, status, told) = (replies cookie).0 a in
            (body, who, refl, known, started, status, told),
        λ (given, who, same, known, started, status, told).
            let own : given ≡ body = ground arith in
            (replies cookie).1 (who, rw own at known, rw own at started, status, told),
      ),
      bare,
    )

-- ===== src/Authkit/FirstAccounts.antt =====
-- What `EnsureAdmin` promises, over the store of testkit.
use gouncer.Base.{
  ◌≡◌, refl, ◌≢◌, inl, inr, Bool, true, false, some, [], GoString, arith, ◌==◌, nat_eq, string_eq,
  Bool-cases, Option-cases,
}
use gouncer.Base.Dict
use gouncer.Core.Errors.{is, email_taken}
use gouncer.Core.Results.{ok, Result-cases}
use gouncer.Core.Platform.{Platform, Env}
use gouncer.Core.Types.{User}
use gouncer.Core.Identity.{new_user}
use gouncer.Core.Password.{hash_password}
use gouncer.Authkit.Instance.{auth_store}
use gouncer.Authkit.Bootstrap.{stamp_roleless, after_create, ensure_admin}
use gouncer.Testkit.State.{Store}
use gouncer.Testkit.Accounts.{has_email, put_user, create_user, user_by_email}
use gouncer.Testkit.Guard.{set_user_role, any_role}
use gouncer.Testkit.Cases.{create_user_cases, set_role_cases}
use gouncer.Testkit.WellFormed.{IsWellFormed}

-- An account of the store has the email and a role.
pub record HasRole (email : GoString) (s : Store) : Type 0 where
  pub user : User
  pub held : Dict.lookup user.id s.users ≡ some user
  pub own : user.email ≡ email
  pub given : user.role ≢ []

stamp_roleless-HasRole :
    (platform : Platform) (env : Env) (email role : GoString) (s : Store)
    → IsWellFormed s
    → role ≢ []
    → (stamp_roleless platform auth_store env (some set_user_role) email role s).0 ≡ ok tt
    → HasRole email (stamp_roleless platform auth_store env (some set_user_role) email role s).1
unfolding stamp_roleless user_by_email set_user_role
stamp_roleless-HasRole platform env email role s w given done =
    elim (Option-cases s.faults.lookup_err) [
      | inr (e, failed) ↦ absurd (ground arith)
      | inl quiet ↦ elim (Option-cases (Dict.find (has_email email) s.users)) [
        | inl missed ↦ absurd (ground arith)
        | inr (u, found) ↦
            let (k, there, same) =
              Dict.find-lookup (has_email email) u s.users w.users_keyed.nodup found in
            let own : u.id ≡ k = w.users_keyed.keyed k u there in
            elim (Bool-cases (u.role == [])) [
              | inr holds ↦ record {
                user = u;
                held = ground arith;
                own = ground arith;
                given = λ e. ground arith;
              }
              | inl roleless ↦ elim (set_role_cases u.id role [] any_role s) [
                | inl (refused, _) ↦ absurd (ground arith)
                | inr (v, held, _, _, e) ↦ record {
                  user = record u { role = role };
                  held =
                      ground
                        (arith, Dict.lookup-insert u.id u.id (record u { role = role }) s.users);
                  own = ground arith;
                  given = given;
                }
              ]
            ]
      ]
    ]

-- A stamping that succeeds found an account of the email.
stamp_roleless-held :
    (platform : Platform) (env : Env) (email role : GoString) (s : Store)
    → IsWellFormed s
    → (stamp_roleless platform auth_store env (some set_user_role) email role s).0 ≡ ok tt
    → (v : User) × (Dict.lookup v.id s.users ≡ some v) × (v.email ≡ email)
unfolding stamp_roleless user_by_email
stamp_roleless-held platform env email role s w done = elim (Option-cases s.faults.lookup_err) [
  | inr (e, failed) ↦ absurd (ground arith)
  | inl quiet ↦ elim (Option-cases (Dict.find (has_email email) s.users)) [
    | inl missed ↦ absurd (ground arith)
    | inr (u, found) ↦
        let (k, there, same) =
          Dict.find-lookup (has_email email) u s.users w.users_keyed.nodup found in
        let own : u.id ≡ k = w.users_keyed.keyed k u there in (u, ground arith, ground arith)
  ]
]

-- In a well-formed store, `EnsureAdmin` that does not fail leaves an account with the email of
-- the account it made, or found, and a role. It answers true only if no account had the email, and
-- then the account made stands with the role asked for; it answers false only if an account had the
-- email before.
pub ensure_admin-HasRole :
    (platform : Platform) (env : Env) (email name password role : GoString) (made : Bool)
    (s : Store)
    → IsWellFormed s
    → (ensure_admin platform auth_store env (some set_user_role) email name password role s).0
      ≡ ok made
    → let t : Store =
        (ensure_admin platform auth_store env (some set_user_role) email name password role s).1 in
      (u : User) × (new_user platform (hash_password platform env) env email name password ≡ ok u)
      × HasRole u.email t
      × (made ≡ true
          → (Dict.any (has_email u.email) s.users ≡ false)
            × (Dict.lookup u.id t.users ≡ some (record u { role = role })))
      × (made ≡ false → (v : User) × (Dict.lookup v.id s.users ≡ some v) × (v.email ≡ u.email))
unfolding ensure_admin after_create
ensure_admin-HasRole platform env email name password role made s w done =
    elim (Bool-cases (role == [])) [
      | inl empty ↦ absurd (ground arith)
      | inr given ↦
          elim (Result-cases
            (new_user platform (hash_password platform env) env email name password)) [
              | inl (e, failed) ↦ absurd (ground arith)
              | inr (u, issued) ↦ elim (create_user_cases (record u { role = role }) s) [
                | inr (free, created) ↦
                    let held : User = record u { role = role } in
                    let ran : ensure_admin platform auth_store env (some set_user_role) email name
                          password role s
                        ≡ (ok true, put_user u.id held s) =
                      rw given (rw issued (rw created refl)) in
                    let there : Dict.lookup u.id (Dict.insert u.id held s.users) ≡ some held =
                      ground (arith, Dict.lookup-insert u.id u.id held s.users) in
                    (
                      u,
                      issued,
                      rw ran (record {
                        user = held;
                        held = there;
                        own = refl;
                        given = λ e. ground arith;
                      }),
                      rw ran (λ _. (free, there)),
                      let yes : true ≡ made = ground arith in λ no. absurd (ground arith),
                    )
                | inl (refused, same) ↦
                    elim (Result-cases (create_user (record u { role = role }) s).0) [
                      | inr (_, created) ↦ absurd (ground arith)
                      | inl (e, failed) ↦ elim (Bool-cases (is e email_taken)) [
                        | inr other ↦ absurd (ground arith)
                        | inl taken ↦
                            elim (Result-cases
                              (stamp_roleless platform auth_store env (some set_user_role) u.email
                                role s).0) [
                                  | inl (f, unstamped) ↦ absurd (ground arith)
                                  | inr (_, stamped) ↦
                                      let ran : ensure_admin platform auth_store env
                                            (some set_user_role) email name password role s
                                          ≡ (
                                            ok false,
                                            (stamp_roleless platform auth_store env
                                                (some set_user_role) u.email role s).1,
                                          ) =
                                        ground arith in
                                      let no : false ≡ made = ground arith in
                                      (
                                        u,
                                        issued,
                                        rw ran (
                                            stamp_roleless-HasRole platform env u.email role s w
                                              (λ e. ground arith) stamped),
                                        λ yes. absurd (ground arith),
                                        λ _.
                                            stamp_roleless-held platform env u.email role s w
                                              stamped,
                                      )
                                ]
                      ]
                    ]
              ]
            ]
    ]

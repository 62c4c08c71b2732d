-- ===== src/Sqlite/RoleSimulation.antt =====
-- The guarded writes of role.go and the grant to accounts without a role, on the tables and on the
-- store of testkit.
use gouncer.Base.{
  ℕ, suc, ◌≡◌, refl, ap, inl, inr, Bool, false, not, none, some, [], GoString, arith, ◌==◌, eq_refl,
  nat_eq, string_eq, Bool-cases, Option-cases,
}
use gouncer.Base.Dict
use gouncer.Core.Errors.{user_not_found, empty_role}
use gouncer.Core.Results.{M, Result, ok, err, Result-cases, lift, ◌>>◌}
use gouncer.Core.Roles.{Roles, holds}
use gouncer.Core.Types.{User}
use gouncer.Sqlite.Rows.{Driver, AuthUser, Tables, Database, statement, update_where, count_where}
use gouncer.Sqlite.UserQueries
use gouncer.Sqlite.UserQueries.{has_id}
use gouncer.Sqlite.Users
use gouncer.Sqlite.Users.{stored_user}
use gouncer.Sqlite.Roles
use gouncer.Sqlite.View.{count-index, map_values-index}
use gouncer.Sqlite.Simulation.{calm, Simulates, Agrees, Agrees-of, ArePlain}
use gouncer.Sqlite.UsersSimulation.{users-Simulates}
use gouncer.Sqlite.RolesSimulation.{account_cases}
use gouncer.Sqlite.GuardSimulation.{noted-Simulates, disable-BodyAgrees}
use gouncer.Sqlite.Transaction.{BodyAgrees, refused, answered, in_tx-Agrees, user_not_found-known}
use gouncer.Testkit.State.{Store}
use gouncer.Testkit.Accounts
use gouncer.Testkit.Accounts.{put_user}
use gouncer.Testkit.Guard
use gouncer.Testkit.Guard.{accepted, privileged_at, covers_beside}
use gouncer.Testkit.WellFormed.{IsWellFormed, noted-IsWellFormed}
use gouncer.Sqlite.CoverSimulation.{
  AcceptsAlike, uncovered, any_role-AcceptsAlike, still_holds-AcceptsAlike, guarded-BodyAgrees,
}

-- The write that `setRole` ends in.
abbrev put_role : ℕ → GoString → M Store (Unit {0})
put_role id role s = elim (Dict.lookup id s.users) [
  | none ↦ (err user_not_found, s)
  | some u ↦ (ok tt, put_user id (record u { role = role }) s)
]

-- The empty role is not privileged.
holds-nothing : (l : Roles) → holds l [] ≡ false
unfolding holds
holds-nothing l = let blank : GoString = [] in rw (eq_refl blank) refl

set_role-guarded :
    (id : ℕ) (role : GoString) (privileged : Roles) (test : User → Result (Unit {0})) (s : Store)
    → s.faults.set_role_err ≡ none
    → Guard.set_role id role privileged test s
      ≡ (lift (accepted test (Dict.lookup id s.users))
            >> Guard.refuse_uncovered id privileged (not (holds privileged role))
            >> put_role id role)
          (record s { cover_given = privileged })
unfolding Guard.set_role Guard.refuse_uncovered
set_role-guarded id role privileged test s quiet = elim (Option-cases (Dict.lookup id s.users)) [
  | inl absent ↦ rw quiet (
      rw absent (
        rw (absent, privileged_at)
          (rw (holds-nothing privileged) (elim (Bool-cases (not (holds privileged role))) [
            | inl h ↦ rw h (rw (absent, put_role) refl)
            | inr h ↦ rw h (rw (absent, put_role) refl)
          ]))))
  | inr (u, present) ↦ elim (Result-cases (test u)) [
    | inl (e, bad) ↦ rw quiet (rw (present, put_role) (rw bad refl))
    | inr (x, good) ↦ rw quiet (
        rw (present, put_role)
          (rw good (elim (Bool-cases (uncovered id privileged (not (holds privileged role)) s)) [
            | inl bare ↦ rw bare refl
            | inr covered ↦ rw covered (rw (present, put_role) refl)
          ])))
  ]
]

disable_under_cover-guarded :
    (id : ℕ) (disabled : Bool) (privileged : Roles) (test : User → Result (Unit {0})) (s : Store)
    → s.faults.set_disabled_err ≡ none
    → Guard.disable_under_cover id disabled privileged test s
      ≡ (lift (accepted test (Dict.lookup id s.users))
            >> Guard.refuse_uncovered id privileged disabled
            >> Guard.set_disabled id disabled)
          (record s { cover_given = privileged; disabled_under_cover = suc s.disabled_under_cover })
unfolding Guard.disable_under_cover
disable_under_cover-guarded id disabled privileged test s quiet =
    rw quiet (elim (Result-cases (accepted test (Dict.lookup id s.users))) [
      | inl (e, bad) ↦ rw bad refl
      | inr (x, good) ↦ rw good (elim (Bool-cases (uncovered id privileged disabled s)) [
        | inl bare ↦ rw bare refl
        | inr covered ↦ rw covered refl
      ])
    ])

module _ (d : Driver) (t : Tables) (s : Store) (sim : Simulates d t s) (wf : IsWellFormed s) where
  write_role-BodyAgrees :
      (id : ℕ) (role : GoString)
      → BodyAgrees d t (Roles.write_role d id role (calm t)) (put_role id role s)
  unfolding Roles.write_role UserQueries.set_user_role statement
  write_role-BodyAgrees id role =
      let g : AuthUser → AuthUser = λ u. record u { role = role } in
      let after = record t { users = update_where (has_id id) g t.users } in
      elim (account_cases d t s sim wf id) [
        | inl (missing, none_there, absent) ↦
            refused user_not_found after s user_not_found-known (rw none_there refl)
              (rw (absent, put_role) refl) sim
        | inr (r, n, found, rows, present) ↦
            let w = record (stored_user d r) { role = role } in
            answered tt after (put_user id w s) (rw rows refl) (rw (present, put_role) refl) (
              users-Simulates d t s sim id (stored_user d r) w g wf present (λ x. refl)
                (λ x e. ap (λ (u : User). record u { role = role }) e))
      ]

module _ (d : Driver) (t : Tables) (s : Store) (sim : Simulates d t s) (wf : IsWellFormed s)
    (id : ℕ) (privileged : Roles) (plain : ArePlain d privileged) where
  role-Agrees :
      (role : GoString) (accepts : M Database (Unit {0})) (test : User → Result (Unit {0}))
      → AcceptsAlike d t (record s { cover_given = privileged }) id accepts test
      → Agrees d
          (Roles.under_cover d id privileged
            (not (holds privileged role))
            accepts
            (Roles.write_role d id role)
            (calm t))
          (Guard.set_role id role privileged test s)
  unfolding Roles.under_cover
  role-Agrees role accepts test alike =
      let n = record s { cover_given = privileged } in
      let removes = not (holds privileged role) in
      let write = Roles.write_role d id role in
      let nsim = noted-Simulates d t s privileged s.disabled_under_cover sim in
      let nwf = noted-IsWellFormed privileged s.disabled_under_cover s wf in
      let wrote = write_role-BodyAgrees d t n nsim nwf id role in
      rw (set_role-guarded id role privileged test s (rw sim.faultless refl)) (
        in_tx-Agrees d t (Roles.under_cover_body d id privileged removes accepts write) _ (
          guarded-BodyAgrees d t n nsim nwf id privileged removes accepts write test
            (put_role id role) plain alike wrote))

  disabled-Agrees :
      (disabled : Bool) (accepts : M Database (Unit {0})) (test : User → Result (Unit {0}))
      → AcceptsAlike d t
          (record s { cover_given = privileged; disabled_under_cover = suc s.disabled_under_cover })
          id
          accepts
          test
      → Agrees d
          (Roles.under_cover d id privileged disabled accepts
            (Roles.write_disabled d id disabled)
            (calm t))
          (Guard.disable_under_cover id disabled privileged test s)
  unfolding Roles.under_cover Roles.write_disabled
  disabled-Agrees disabled accepts test alike =
      let n = record s {
        cover_given = privileged;
        disabled_under_cover = suc s.disabled_under_cover;
      } in
      let write = Users.disable d id disabled in
      let nsim = noted-Simulates d t s privileged (suc s.disabled_under_cover) sim in
      let nwf = noted-IsWellFormed privileged (suc s.disabled_under_cover) s wf in
      let wrote = disable-BodyAgrees d t n nsim nwf id disabled in
      rw (disable_under_cover-guarded id disabled privileged test s (rw sim.faultless refl)) (
        in_tx-Agrees d t (Roles.under_cover_body d id privileged disabled accepts write) _ (
          guarded-BodyAgrees d t n nsim nwf id privileged disabled accepts write test
            (Guard.set_disabled id disabled) plain alike wrote))

  pub set_user_role-Agrees :
      (role : GoString)
      → Agrees d
          (Roles.set_user_role d id role privileged (calm t))
          (Guard.set_user_role id role privileged s)
  unfolding Roles.set_user_role Guard.set_user_role
  set_user_role-Agrees role = role-Agrees role (Roles.any_role d) Guard.any_role (
      any_role-AcceptsAlike d t _ (noted-Simulates d t s privileged s.disabled_under_cover sim)
        (noted-IsWellFormed privileged s.disabled_under_cover s wf) id)

  pub set_user_role_from-Agrees :
      (held role : GoString)
      → Agrees d
          (Roles.set_user_role_from d id held role privileged (calm t))
          (Guard.set_user_role_from id held role privileged s)
  unfolding Roles.set_user_role_from Guard.set_user_role_from
  set_user_role_from-Agrees held role =
      role-Agrees role (Roles.still_holds d id held) (Guard.still_holds held) (
        still_holds-AcceptsAlike d t _ (noted-Simulates d t s privileged s.disabled_under_cover sim)
          (noted-IsWellFormed privileged s.disabled_under_cover s wf) id held)

  pub set_user_disabled_under_cover-Agrees :
      (disabled : Bool)
      → Agrees d
          (Roles.set_user_disabled_under_cover d id disabled privileged (calm t))
          (Guard.set_user_disabled_under_cover id disabled privileged s)
  unfolding Roles.set_user_disabled_under_cover Guard.set_user_disabled_under_cover
  set_user_disabled_under_cover-Agrees disabled =
      disabled-Agrees disabled (Roles.any_role d) Guard.any_role (
        any_role-AcceptsAlike d t _
          (noted-Simulates d t s privileged (suc s.disabled_under_cover) sim)
          (noted-IsWellFormed privileged (suc s.disabled_under_cover) s wf) id)

  pub set_user_disabled_from-Agrees :
      (held : GoString) (disabled : Bool)
      → Agrees d
          (Roles.set_user_disabled_from d id held disabled privileged (calm t))
          (Guard.set_user_disabled_from id held disabled privileged s)
  unfolding Roles.set_user_disabled_from Guard.set_user_disabled_from
  set_user_disabled_from-Agrees held disabled =
      disabled-Agrees disabled (Roles.still_holds d id held) (Guard.still_holds held) (
        still_holds-AcceptsAlike d t _
          (noted-Simulates d t s privileged (suc s.disabled_under_cover) sim)
          (noted-IsWellFormed privileged (suc s.disabled_under_cover) s wf) id held)

pub grant_role_to_roleless-Agrees :
    (d : Driver) (t : Tables) (s : Store)
    → Simulates d t s
    → (role : GoString)
    → Agrees d
        (Roles.grant_role_to_roleless d role (calm t))
        (Accounts.grant_role_to_roleless role s)
grant_role_to_roleless-Agrees d t s sim role =
    let g : AuthUser → AuthUser = λ u. record u { role = role } in
    let p : AuthUser → Bool = λ u. u.role == [] in
    let after = record t { users = update_where p g t.users } in
    elim (Bool-cases (role == [])) [
      | inl blank ↦
          Agrees-of d _ _ (err empty_role) t s
            (unfold Roles.grant_role_to_roleless in rw (blank, Roles.grant_role_to_roleless) refl)
            (unfold Accounts.grant_role_to_roleless in rw blank refl) sim
      | inr named ↦
          Agrees-of d _ _ (ok (count_where p t.users)) after
            (record s { users = Dict.map_values (Accounts.grant_to role) s.users })
            (unfold Roles.grant_role_to_roleless in
              unfold UserQueries.grant_role_to_roleless in
              unfold statement in rw (named, Roles.grant_role_to_roleless) refl)
            (unfold Accounts.grant_role_to_roleless in
              rw named (
                rw sim.users (
                  rw
                    (count-index (λ (r : AuthUser). r.id) (stored_user d) Accounts.is_roleless p
                      t.users (λ r. refl))
                    refl)))
            record {
              users = rw sim.users (
                  map_values-index (λ (r : AuthUser). r.id) (stored_user d) (Accounts.grant_to role)
                    g p t.users (λ r. refl) (λ r hit. ground arith) (λ r miss. ground arith));
              sessions = sim.sessions;
              tokens = sim.tokens;
              faultless = sim.faultless;
            }
    ]

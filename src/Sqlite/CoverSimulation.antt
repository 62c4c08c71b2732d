-- ===== src/Sqlite/CoverSimulation.antt =====
-- The guard of the guarded writes of role.go, on the tables and on the store of testkit.
use gouncer.Base.{
  ℕ, ◌≡◌, refl, inl, inr, Bool, not, ◌&&◌, Option, none, some, GoString, ◌==◌, nat_eq, string_eq,
  Bool-cases,
}
use gouncer.Base.Dict
use gouncer.Core.Errors.{last_privileged, role_changed}
use gouncer.Core.Results.{M, Result, ok, err, lift, ◌>>◌}
use gouncer.Core.Roles.{Roles}
use gouncer.Core.Types.{User}
use gouncer.Sqlite.Rows.{Driver, Tables, Database, statement}
use gouncer.Sqlite.UserQueries
use gouncer.Sqlite.UserQueries.{has_id}
use gouncer.Sqlite.Users.{stored_user}
use gouncer.Sqlite.Roles
use gouncer.Sqlite.Simulation.{calm, Simulates, ArePlain}
use gouncer.Sqlite.RolesSimulation.{account_cases, refuse_uncovered-calm}
use gouncer.Sqlite.Transaction.{BodyAgrees, refused, last_privileged-known, role_changed-known}
use gouncer.Testkit.State.{Store}
use gouncer.Testkit.Guard
use gouncer.Testkit.Guard.{accepted, privileged_at, covers_beside}
use gouncer.Testkit.WellFormed.{IsWellFormed}

-- The test of the role on the tables and on the store, which passes or answers `ErrRoleChanged`.
pub data AcceptsAlike (d : Driver) (t : Tables) (s : Store) (id : ℕ) (m : M Database (Unit {0}))
    (a : User → Result (Unit {0})) : Type 0 where
  passes :
      m (calm t) ≡ (ok tt, calm t)
      → accepted a (Dict.lookup id s.users) ≡ ok tt
      → AcceptsAlike d t s id m a
  changed :
      m (calm t) ≡ (err role_changed, calm t)
      → accepted a (Dict.lookup id s.users) ≡ err role_changed
      → (u : User) → Dict.lookup id s.users ≡ some u
      → AcceptsAlike d t s id m a

accepted-any_role : (o : Option User) → accepted Guard.any_role o ≡ ok tt
accepted-any_role none = refl
accepted-any_role (some u) = refl

-- Whether the guard of a write refuses.
abbrev pub uncovered : ℕ → Roles → Bool → Store → Bool
uncovered id privileged removes s =
    (removes && privileged_at privileged (Dict.lookup id s.users))
    && not (Dict.any (covers_beside id privileged) s.users)

module _ (d : Driver) (t : Tables) (s : Store) (sim : Simulates d t s) (wf : IsWellFormed s) where
  pub any_role-AcceptsAlike : (id : ℕ) → AcceptsAlike d t s id (Roles.any_role d) Guard.any_role
  any_role-AcceptsAlike id = passes refl (accepted-any_role (Dict.lookup id s.users))

  pub still_holds-AcceptsAlike :
      (id : ℕ) (held : GoString)
      → AcceptsAlike d t s id (Roles.still_holds d id held) (Guard.still_holds held)
  unfolding Roles.still_holds UserQueries.get_user_by_id statement
  still_holds-AcceptsAlike id held = elim (account_cases d t s sim wf id) [
    | inl (missing, none_there, absent) ↦ passes (rw missing refl) (rw absent refl)
    | inr (r, n, found, rows, present) ↦ elim (Bool-cases (r.role == held)) [
      | inl same ↦ passes (rw found (rw same refl)) (rw present (rw (same, Guard.still_holds) refl))
      | inr other ↦
          changed (rw found (rw other refl)) (rw present (rw (other, Guard.still_holds) refl))
            (stored_user d r) present
    ]
  ]

  -- A guarded body agrees where the write it ends in does.
  pub guarded-BodyAgrees :
      (id : ℕ) (privileged : Roles) (removes : Bool) (accepts write : M Database (Unit {0}))
      (test : User → Result (Unit {0})) (put : M Store (Unit {0}))
      → ArePlain d privileged
      → AcceptsAlike d t s id accepts test
      → BodyAgrees d t (write (calm t)) (put s)
      → BodyAgrees d t (Roles.under_cover_body d id privileged removes accepts write (calm t)) (
          (lift (accepted test (Dict.lookup id s.users))
              >> Guard.refuse_uncovered id privileged removes
              >> put)
            s)
  unfolding Guard.refuse_uncovered
  guarded-BodyAgrees id privileged removes accepts write test put plain (changed ran made u present)
        wrote =
      refused role_changed t s role_changed-known (rw ran refl) (rw made refl) sim
  guarded-BodyAgrees id privileged removes accepts write test put plain (passes ran made) wrote =
      let guard = refuse_uncovered-calm d t s sim wf id privileged removes plain in
      elim (Bool-cases (uncovered id privileged removes s)) [
        | inl bare ↦
            refused last_privileged t s last_privileged-known (rw ran (rw guard (rw bare refl)))
              (rw made (rw bare refl)) sim
        | inr covered ↦
            let sql : Roles.under_cover_body d id privileged removes accepts write (calm t)
                ≡ write (calm t) =
              rw ran (rw guard (rw covered refl)) in
            let kit : (lift (accepted test (Dict.lookup id s.users))
                    >> Guard.refuse_uncovered id privileged removes
                    >> put)
                  s
                ≡ put s =
              rw made (rw covered refl) in
            rw sql (rw kit wrote)
      ]

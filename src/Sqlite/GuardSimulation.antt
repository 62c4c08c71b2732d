-- ===== src/Sqlite/GuardSimulation.antt =====
-- The writes to one account, with the guard and without it, on the tables and on the store of testkit.
use gouncer.Base.{ℕ, ◌≡◌, refl, ap, inl, inr, Bool, true, false, none, ◌==◌, nat_eq, string_eq}
use gouncer.Core.Errors.{user_not_found}
use gouncer.Core.Results.{ok}
use gouncer.Core.Roles.{Roles}
use gouncer.Core.Types.{User}
use gouncer.Sqlite.Rows.{Driver, AuthUser, Tables, statement, update_where}
use gouncer.Sqlite.UserQueries
use gouncer.Sqlite.UserQueries.{has_id}
use gouncer.Sqlite.TokenQueries
use gouncer.Sqlite.TokenQueries.{sessions_where, tokens_where}
use gouncer.Sqlite.Users
use gouncer.Sqlite.Users.{stored_user}
use gouncer.Sqlite.Simulation.{calm, Simulates, Agrees}
use gouncer.Sqlite.UsersSimulation.{users-Simulates, sessions-Simulates, tokens-Simulates}
use gouncer.Sqlite.RolesSimulation.{account_cases}
use gouncer.Sqlite.Transaction.{BodyAgrees, refused, answered, in_tx-Agrees, user_not_found-known}
use gouncer.Testkit.State.{Store}
use gouncer.Testkit.Accounts.{put_user}
use gouncer.Testkit.Guard
use gouncer.Testkit.Guard.{session_of, token_of, accepted}
use gouncer.Testkit.WellFormed.{IsWellFormed}

-- What the counters of the guarded writes note is not in the tables.
pub noted-Simulates :
    (d : Driver) (t : Tables) (s : Store) (given : Roles) (n : ℕ)
    → Simulates d t s
    → Simulates d t (record s { cover_given = given; disabled_under_cover = n })
noted-Simulates d t s given n sim = record {
  users = sim.users;
  sessions = sim.sessions;
  tokens = sim.tokens;
  faultless = sim.faultless;
}

abbrev closed : ℕ → Bool → Tables → Tables
closed id false t = t
closed id true t = tokens_where (λ k. k.user_id == id) (sessions_where (λ x. x.user_id == id) t)

revoke-Simulates :
    (d : Driver) (t : Tables) (s : Store) (id : ℕ) (disabled : Bool)
    → Simulates d t s
    → Simulates d (closed id disabled t) (Guard.revoke id disabled s)
revoke-Simulates d t s id false sim = sim
revoke-Simulates d t s id true sim =
    tokens-Simulates d _ _
      (sessions-Simulates d t s sim (session_of id) (λ x. x.user_id == id) (λ x. refl))
      (token_of id) (λ k. k.user_id == id) (λ k. refl)

revoke-calm :
    (d : Driver) (t : Tables) (id : ℕ) (disabled : Bool)
    → Users.revoke d id disabled (calm t) ≡ (ok tt, calm (closed id disabled t))
unfolding Users.revoke TokenQueries.delete_user_sessions TokenQueries.delete_user_tokens statement
revoke-calm d t id false = refl
revoke-calm d t id true = refl

module _ (d : Driver) (t : Tables) (s : Store) (sim : Simulates d t s) (wf : IsWellFormed s) where
  pub disable-BodyAgrees :
      (id : ℕ) (disabled : Bool)
      → BodyAgrees d t (Users.disable d id disabled (calm t)) (Guard.set_disabled id disabled s)
  unfolding Users.disable UserQueries.set_user_disabled Guard.set_disabled statement
  disable-BodyAgrees id disabled =
      let quiet : s.faults.set_disabled_err ≡ none = rw sim.faultless refl in
      let g : AuthUser → AuthUser = λ u. record u { disabled = disabled } in
      let after = record t { users = update_where (has_id id) g t.users } in
      elim (account_cases d t s sim wf id) [
        | inl (missing, none_there, absent) ↦
            refused user_not_found after s user_not_found-known (rw none_there refl)
              (rw quiet (rw absent refl)) sim
        | inr (r, n, found, rows, present) ↦
            let w = record (stored_user d r) { disabled = disabled } in
            let simulated =
              users-Simulates d t s sim id (stored_user d r) w g wf present (λ x. refl)
                (λ x e. ap (λ (u : User). record u { disabled = disabled }) e) in
            answered tt (closed id disabled after) (Guard.revoke id disabled (put_user id w s))
              (rw rows (revoke-calm d after id disabled)) (rw quiet (rw present refl))
              (revoke-Simulates d after (put_user id w s) id disabled simulated)
      ]

  pub set_user_disabled-Agrees :
      (id : ℕ) (disabled : Bool)
      → Agrees d
          (Users.set_user_disabled d id disabled (calm t))
          (Guard.set_user_disabled id disabled s)
  unfolding Users.set_user_disabled Guard.set_user_disabled
  set_user_disabled-Agrees id disabled =
      in_tx-Agrees d t (Users.disable d id disabled) _ (disable-BodyAgrees id disabled)

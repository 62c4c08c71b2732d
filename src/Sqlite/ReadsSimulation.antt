-- ===== src/Sqlite/ReadsSimulation.antt =====
-- The account behind a session, on the tables and on the store of testkit.
use gouncer.Base.{
  ℕ, ◌≡◌, refl, sym, ap, ◌∙◌, Bool, not, Option, none, some, List, [], ◌∷◌, GoString, arith, ◌==◌,
  ltb, nat_eq, string_eq, Bool-cases, Option-cases, inl, inr, if◌then◌else◌,
}
use gouncer.Base.Dict
use gouncer.Core.Errors.{session_not_found}
use gouncer.Core.Results.{ok, err}
use gouncer.Core.Types.{Session}
use gouncer.Sqlite.Rows.{Driver, AuthUser, AuthSession, Tables, statement, find_where}
use gouncer.Sqlite.UserQueries.{is_enabled}
use gouncer.Sqlite.TokenQueries
use gouncer.Sqlite.TokenQueries.{first_owner, is_open}
use gouncer.Sqlite.Users
use gouncer.Sqlite.Users.{stored_user}
use gouncer.Sqlite.View.{index, map_option, lookup-index}
use gouncer.Sqlite.Simulation.{calm, stored_session, Simulates, Agrees, Agrees-of, keep}
use gouncer.Sqlite.RolesSimulation.{account_cases, find-user}
use gouncer.Testkit.State.{Store}
use gouncer.Testkit.Sessions
use gouncer.Testkit.WellFormed.{IsWellFormed}

abbrev hashed : GoString → AuthSession → Bool
hashed hash x = x.token_hash == hash

-- The owner of a session that is open.
abbrev owner_of : ℕ → List AuthUser → Option AuthSession → Option AuthUser
owner_of c users none = none
owner_of c users (some x) =
    if ltb c x.expires_at then find_where (is_enabled x.user_id) users else none

module _ (d : Driver) (hash : GoString) (c : ℕ) (users : List AuthUser) where
  abbrev by_hash : List AuthSession → Dict.Dict GoString Session
  by_hash xs = index (λ (x : AuthSession). x.token_hash) (stored_session d) xs

  first_owner-absent :
      (xs : List AuthSession)
      → Dict.lookup hash (by_hash xs) ≡ none
      → first_owner (is_open hash c) xs users ≡ none
  unfolding first_owner Dict.lookup
  first_owner-absent [] absent = refl
  first_owner-absent (x ∷ xs) absent = ground (arith, first_owner-absent xs)

  first_owner-lem :
      (xs : List AuthSession)
      → Dict.NodupKeys (by_hash xs)
      → first_owner (is_open hash c) xs users ≡ owner_of c users (find_where (hashed hash) xs)
  unfolding first_owner find_where
  first_owner-lem [] nodup = refl
  first_owner-lem (x ∷ xs) (fresh, nodup) = elim (Bool-cases (x.token_hash == hash)) [
    | inl hit ↦
        let at_hash : x.token_hash ≡ hash = ground arith in
        let rest =
          first_owner-absent xs (ap (λ h. Dict.lookup h (by_hash xs)) (sym at_hash) ∙ fresh) in
        rw hit (elim (Bool-cases (ltb c x.expires_at)) [
          | inl live ↦ rw live (elim (Option-cases (find_where (is_enabled x.user_id) users)) [
            | inl nobody ↦ rw nobody rest
            | inr (u, found) ↦ rw found refl
          ])
          | inr late ↦ rw late rest
        ])
    | inr miss ↦ ground (arith, first_owner-lem xs nodup)
  ]

module _ (d : Driver) (t : Tables) (s : Store) (sim : Simulates d t s) (wf : IsWellFormed s) where
  -- The file and the store of testkit find the same account behind a session, or answer the same error:
  -- where the session is missing or over, and where its account is missing or disabled.
  pub user_by_session-Agrees :
      (hash : GoString) (now : ℕ)
      → Agrees d
          (Users.user_by_session d hash now (calm t))
          (Sessions.user_by_session hash (keep d now) s)
  user_by_session-Agrees hash now =
      let quiet : s.faults.session_err ≡ none = rw sim.faultless refl in
      let c = d.to_column now in
      let owner =
        first_owner-lem d hash c t.users t.sessions (rw sim.sessions at wf.sessions_keyed.nodup) in
      let entry : Dict.lookup hash s.sessions
          ≡ map_option (stored_session d) (find_where (hashed hash) t.sessions) =
        rw sim.sessions (
          lookup-index (λ (x : AuthSession). x.token_hash) (stored_session d) hash (hashed hash)
            t.sessions (λ x. ground arith)) in
      elim (Option-cases (find_where (hashed hash) t.sessions)) [
        | inl missing ↦
            Agrees-of d _ _ (err session_not_found) t s
              (unfold Users.user_by_session in
                unfold TokenQueries.get_user_by_session in
                unfold statement in rw owner (rw missing refl))
              (unfold Sessions.user_by_session in rw quiet (rw entry (rw missing refl))) sim
        | inr (x, found) ↦
            let same = d.ordered c x.expires_at in
            let one = find-user d t s sim wf x.user_id (λ u. not u.disabled) in
            elim (Bool-cases (ltb c x.expires_at)) [
              | inl live ↦ elim (account_cases d t s sim wf x.user_id) [
                | inl (nobody, none_there, absent) ↦
                    Agrees-of d _ _ (err session_not_found) t s
                      (unfold Users.user_by_session in
                        unfold TokenQueries.get_user_by_session in
                        unfold statement in rw owner (rw found (rw live (rw one (rw nobody refl)))))
                      (unfold Sessions.user_by_session in
                        rw quiet (rw entry (rw found (rw same (rw live (rw absent refl))))))
                      sim
                | inr (r, n, somebody, rows, present) ↦ elim (Bool-cases r.disabled) [
                  | inl off ↦
                      Agrees-of d _ _ (err session_not_found) t s
                        (unfold Users.user_by_session in
                          unfold TokenQueries.get_user_by_session in
                          unfold statement in
                          rw owner (rw found (rw live (rw one (rw somebody (rw off refl))))))
                        (unfold Sessions.user_by_session in
                          rw quiet
                            (rw entry (rw found (rw same (rw live (rw present (rw off refl)))))))
                        sim
                  | inr on ↦
                      Agrees-of d _ _ (ok (stored_user d r)) t s
                        (unfold Users.user_by_session in
                          unfold TokenQueries.get_user_by_session in
                          unfold statement in
                          rw owner (rw found (rw live (rw one (rw somebody (rw on refl))))))
                        (unfold Sessions.user_by_session in
                          rw quiet
                            (rw entry (rw found (rw same (rw live (rw present (rw on refl)))))))
                        sim
                ]
              ]
              | inr late ↦
                  Agrees-of d _ _ (err session_not_found) t s
                    (unfold Users.user_by_session in
                      unfold TokenQueries.get_user_by_session in
                      unfold statement in rw owner (rw found (rw late refl)))
                    (unfold Sessions.user_by_session in
                      rw quiet (rw entry (rw found (rw same (rw late refl)))))
                    sim
            ]
      ]

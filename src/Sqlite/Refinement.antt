-- ===== src/Sqlite/Refinement.antt =====
-- The SQLite store as the store of testkit, the contract: every call, and every history of calls.
use gouncer.Base.{arith, map, ℕ, ◌≡◌, refl, ap, List, [], ◌∷◌}
use gouncer.Core.Results.{Result, ok, err}
use gouncer.Sqlite.Rows.{Driver, Tables, Database}
use gouncer.Sqlite.Calls.{counted, perform, perform_testkit}
use gouncer.Sqlite.Simulation.{calm, Simulates, Agrees, kept, Admissible}
use gouncer.Sqlite.UsersSimulation.{
  create_user-Agrees, create_first_user-Agrees, create_session-Agrees, delete_session-Agrees,
  delete_expired_sessions-Agrees,
}
use gouncer.Sqlite.GuardSimulation.{set_user_disabled-Agrees}
use gouncer.Sqlite.RoleSimulation.{
  set_user_role-Agrees, set_user_role_from-Agrees, set_user_disabled_under_cover-Agrees,
  set_user_disabled_from-Agrees, grant_role_to_roleless-Agrees,
}
use gouncer.Sqlite.TokensSimulation.{create_token-Agrees, replace_token-Agrees}
use gouncer.Sqlite.RedeemSimulation.{activate_by_token-Agrees}
use gouncer.Sqlite.ResetSimulation.{reset_by_token-Agrees}
use gouncer.Sqlite.SweepSimulation.{delete_expired_tokens-Agrees}
use gouncer.Testkit.State.{Store}
use gouncer.Testkit.Calls.{Call, step}
use gouncer.Testkit.WellFormed.{IsWellFormed}
use gouncer.Testkit.Invariant.{step-IsWellFormed}

counted-Agrees :
    (d : Driver) (r : Result (Unit {0}) × Database) (q : Result (Unit {0}) × Store)
    → Agrees d r q
    → Agrees d (counted r) (counted q)
counted-Agrees d (ok a, db) (ok b, s) both = record {
  answer = refl;
  untroubled = both.untroubled;
  left = both.left;
}
counted-Agrees d (err e, db) (err f, s) both =
    let told = both.answer in
    let same : e ≡ f = ground arith in
    record { answer = rw same refl; untroubled = both.untroubled; left = both.left }
counted-Agrees d (ok a, db) (err f, s) both = let told = both.answer in absurd (ground arith)
counted-Agrees d (err e, db) (ok b, s) both = let told = both.answer in absurd (ground arith)

-- One call, on tables and on a store that they stand for.
pub perform-Agrees :
    (d : Driver) (c : Call) (t : Tables) (s : Store)
    → Simulates d t s
    → IsWellFormed s
    → Admissible d c s
    → Agrees d (perform d c (calm t)) (perform_testkit (kept d c) s)
unfolding perform perform_testkit kept
perform-Agrees d (Call.create_user u) t s sim wf fresh =
    counted-Agrees d _ _ (create_user-Agrees d t s sim u fresh)
perform-Agrees d (Call.create_first_user u) t s sim wf _ =
    counted-Agrees d _ _ (create_first_user-Agrees d t s sim u)
perform-Agrees d (Call.grant_role_to_roleless role) t s sim wf _ =
    grant_role_to_roleless-Agrees d t s sim role
perform-Agrees d (Call.create_session x) t s sim wf (fresh, (u, held)) =
    counted-Agrees d _ _ (create_session-Agrees d t s sim x u fresh held)
perform-Agrees d (Call.delete_session hash) t s sim wf _ =
    counted-Agrees d _ _ (delete_session-Agrees d t s sim hash)
perform-Agrees d (Call.delete_expired_sessions now) t s sim wf _ =
    delete_expired_sessions-Agrees d t s sim now
perform-Agrees d (Call.set_user_disabled id disabled) t s sim wf _ =
    counted-Agrees d _ _ (set_user_disabled-Agrees d t s sim wf id disabled)
perform-Agrees d (Call.set_user_disabled_under_cover id disabled privileged) t s sim wf plain =
    counted-Agrees d _ _
      (set_user_disabled_under_cover-Agrees d t s sim wf id privileged plain disabled)
perform-Agrees d (Call.set_user_disabled_from id held disabled privileged) t s sim wf plain =
    counted-Agrees d _ _
      (set_user_disabled_from-Agrees d t s sim wf id privileged plain held disabled)
perform-Agrees d (Call.set_user_role id role privileged) t s sim wf plain =
    counted-Agrees d _ _ (set_user_role-Agrees d t s sim wf id privileged plain role)
perform-Agrees d (Call.set_user_role_from id held role privileged) t s sim wf plain =
    counted-Agrees d _ _ (set_user_role_from-Agrees d t s sim wf id privileged plain held role)
perform-Agrees d (Call.create_token now k live) t s sim wf fresh =
    counted-Agrees d _ _ (create_token-Agrees d t s sim wf now k live fresh)
perform-Agrees d (Call.replace_token k) t s sim wf fresh =
    counted-Agrees d _ _ (replace_token-Agrees d t s sim wf k fresh)
perform-Agrees d (Call.activate_by_token hash now password_hash) t s sim wf _ =
    activate_by_token-Agrees d t s sim wf hash now password_hash
perform-Agrees d (Call.reset_by_token hash now password_hash) t s sim wf _ =
    reset_by_token-Agrees d t s sim wf hash now password_hash
perform-Agrees d (Call.delete_expired_tokens now) t s sim wf _ =
    delete_expired_tokens-Agrees d t s sim wf now

-- What a history of calls answers, and what it leaves.
unfoldable pub perform_all : Driver → List Call → Database → List (Result ℕ) × Database
unfolding perform
perform_all d [] db = ([], db)
perform_all d (c ∷ cs) db =
    let now = perform d c db in let later = perform_all d cs now.1 in (now.0 ∷ later.0, later.1)

unfoldable pub perform_all_testkit : List Call → Store → List (Result ℕ) × Store
unfolding perform_testkit
perform_all_testkit [] s = ([], s)
perform_all_testkit (c ∷ cs) s =
    let now = perform_testkit c s in
    let later = perform_all_testkit cs now.1 in (now.0 ∷ later.0, later.1)

-- Each call of the history is admissible where it is made.
abbrev pub AdmissibleAll : Driver → List Call → Store → Type 0
AdmissibleAll d [] s = Unit {0}
AdmissibleAll d (c ∷ cs) s = Admissible d c s × AdmissibleAll d cs (perform_testkit (kept d c) s).1

counted-left : {S : Type 0} (r : Result (Unit {0}) × S) → (counted r).1 ≡ r.1
counted-left (ok a, s) = refl
counted-left (err e, s) = refl

perform_testkit-step : (c : Call) (s : Store) → (perform_testkit c s).1 ≡ step c s
unfolding perform_testkit step
perform_testkit-step (Call.create_user u) s = counted-left _
perform_testkit-step (Call.create_first_user u) s = counted-left _
perform_testkit-step (Call.grant_role_to_roleless role) s = refl
perform_testkit-step (Call.create_session x) s = counted-left _
perform_testkit-step (Call.delete_session hash) s = counted-left _
perform_testkit-step (Call.delete_expired_sessions now) s = refl
perform_testkit-step (Call.set_user_disabled id disabled) s = counted-left _
perform_testkit-step (Call.set_user_disabled_under_cover id disabled privileged) s = counted-left _
perform_testkit-step (Call.set_user_disabled_from id held disabled privileged) s = counted-left _
perform_testkit-step (Call.set_user_role id role privileged) s = counted-left _
perform_testkit-step (Call.set_user_role_from id held role privileged) s = counted-left _
perform_testkit-step (Call.create_token now k live) s = counted-left _
perform_testkit-step (Call.replace_token k) s = counted-left _
perform_testkit-step (Call.activate_by_token hash now password_hash) s = refl
perform_testkit-step (Call.reset_by_token hash now password_hash) s = refl
perform_testkit-step (Call.delete_expired_tokens now) s = refl

-- The SQLite store refines the store of testkit. From tables that stand for a well-formed store, and
-- while no statement fails for a reason outside of the program, any history of calls that change a
-- store answers on the tables what it answers on the store of testkit, call by call, and leaves tables
-- that stand for what is left there: accounts, sessions and tokens, each with every field. Instants are
-- compared as columns keep them. The keys that a call inserts are new, a session is for an account
-- that is there, and the privileged roles are not empty and pass through JSON unchanged.
pub perform_all-Agrees :
    (d : Driver) (cs : List Call) (t : Tables) (s : Store)
    → Simulates d t s
    → IsWellFormed s
    → AdmissibleAll d cs s
    → ((perform_all d cs (calm t)).0 ≡ (perform_all_testkit (map (kept d) cs) s).0)
      × Simulates d (perform_all d cs (calm t)).1.tables (perform_all_testkit (map (kept d) cs) s).1
unfolding perform_all perform_all_testkit
perform_all-Agrees d [] t s sim wf all = (refl, sim)
perform_all-Agrees d (c ∷ cs) t s sim wf (here, later) =
    let one = perform-Agrees d c t s sim wf here in
    let db = (perform d c (calm t)).1 in
    let quiet : db ≡ calm db.tables =
      ap (λ l. record { tables = db.tables; trouble = l }) one.untroubled in
    let kept_form : IsWellFormed (perform_testkit (kept d c) s).1 =
      rw (perform_testkit-step (kept d c) s) (step-IsWellFormed (kept d c) s wf) in
    let rest =
      perform_all-Agrees d cs db.tables (perform_testkit (kept d c) s).1 one.left kept_form later in
    (rw one.answer (rw quiet (rw rest.0 refl)), rw quiet rest.1)

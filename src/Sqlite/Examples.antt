-- ===== src/Sqlite/Examples.antt =====
-- A driver that keeps whole milliseconds, a file with two accounts, and the theorems at them.
use gouncer.Base.{
  ℕ, ◌*◌, ◌≡◌, refl, Bool, true, false, none, some, List, [], ◌∷◌, GoString, arith, ltb, contains,
  string_eq, nat_eq, map,
}
use gouncer.Base.Dict
use gouncer.Core.Errors.{foreign, wrap, is}
use gouncer.Core.Results.{err}
use gouncer.Core.Types.{User, Session, Token, purpose_invite}
use gouncer.Sqlite.Rows.{
  Driver, Tables, Database, statement, update_where, count_where, delete_where,
}
use gouncer.Sqlite.Calls.{perform, perform_testkit}
use gouncer.Sqlite.Users
use gouncer.Sqlite.UserQueries
use gouncer.Sqlite.TokenQueries
use gouncer.Sqlite.Atomic.{perform-IsAtomic}
use gouncer.Sqlite.Simulation.{calm, Simulates, Agrees, kept}
use gouncer.Sqlite.ReadsSimulation.{user_by_session-Agrees}
use gouncer.Sqlite.Refinement.{perform_all, perform_all_testkit, AdmissibleAll, perform_all-Agrees}
use gouncer.Testkit.Accounts
use gouncer.Testkit.Sessions
use gouncer.Testkit.Tokens as TestTokens
use gouncer.Testkit.State.{new_store}
use gouncer.Testkit.Calls.{Call, run, step}
use gouncer.Testkit.Invariant.{new_store-IsWellFormed, run-IsWellFormed}

scaled : (a b : ℕ) → ltb (a * 1000) (b * 1000) ≡ ltb a b
scaled a b = ground arith

abbrev millis : Driver
millis = record {
  to_column = λ n. n;
  from_column = λ c. c * 1000;
  through_json = λ r. r;
  classify = λ e. e;
  is_unique = λ e. true;
  ordered = scaled;
  unique_known = refl;
}

abbrev person : ℕ → GoString → User
person id role = record {
  id = id;
  email = id ∷ [];
  name = id ∷ [];
  password_hash = [];
  disabled = false;
  confirmed = false;
  role = role;
  created_at = 5;
}

abbrev blank_tables : Tables
blank_tables = record { users = []; sessions = []; tokens = [] }

abbrev invite_of : ℕ → Token
invite_of id = record {
  token = [];
  token_hash = 7 ∷ [];
  user_id = id;
  purpose = purpose_invite;
  created_at = 0;
  expires_at = 100;
}

abbrev login_of : ℕ → Session
login_of id = record {
  token = [];
  token_hash = 8 ∷ [];
  user_id = id;
  created_at = 0;
  expires_at = 50;
}

abbrev history : List Call
history =
    Call.create_first_user (person 1 (9 ∷ []))
    ∷ Call.create_user (person 2 [])
    ∷ Call.create_session (login_of 1)
    ∷ Call.create_token 10 (invite_of 2) 1
    ∷ Call.activate_by_token (7 ∷ []) 20 (3 ∷ [])
    ∷ Call.set_user_role 1 [] ((9 ∷ []) ∷ [])
    ∷ Call.delete_expired_tokens 200
    ∷ []

blank-Simulates : Simulates millis blank_tables new_store
unfolding new_store
blank-Simulates = record { users = refl; sessions = refl; tokens = refl; faultless = refl }

history-Admissible : AdmissibleAll millis history new_store
unfolding new_store kept perform_testkit Accounts.create_first_user Accounts.create_user
    Sessions.create_session TestTokens.create_token TestTokens.activate_by_token Dict.lookup
    Dict.insert Dict.any Dict.count contains gouncer.Base.string_dec gouncer.Base.ℕ_discrete
history-Admissible = (
  tt,
  (
    refl,
    (
      (refl, (record (person 1 (9 ∷ [])) { created_at = 5000 }, refl)),
      (refl, (tt, (((refl, tt), refl), (tt, tt)))),
    ),
  ),
)

perform_all-Agrees_example :
    ((perform_all millis history (calm blank_tables)).0
      ≡ (perform_all_testkit (map (kept millis) history) new_store).0)
    × Simulates millis
        (perform_all millis history (calm blank_tables)).1.tables
        (perform_all_testkit (map (kept millis) history) new_store).1
perform_all-Agrees_example =
    perform_all-Agrees millis history blank_tables new_store blank-Simulates new_store-IsWellFormed
      history-Admissible

-- The fourth statement of a disabling fails: the delete of the tokens.
abbrev troubled : Database
troubled = record {
  tables = record {
    users =
        record {
          id = 1;
          email = [];
          name = [];
          password_hash = [];
          disabled = false;
          created_at = 0;
          role = [];
          confirmed = true;
        }
        ∷ [];
    sessions = [];
    tokens = [];
  };
  trouble = none ∷ none ∷ none ∷ some (foreign 5) ∷ [];
}

fails : (perform millis (Call.set_user_disabled 1 true) troubled).0 ≡ err (wrap (foreign 5))
unfolding perform Users.set_user_disabled Users.in_tx Users.disable UserQueries.set_user_disabled
    Users.revoke TokenQueries.delete_user_sessions TokenQueries.delete_user_tokens Users.signal
    Users.ended Users.failed statement update_where count_where delete_where gouncer.Base.ℕ_discrete
fails =
    let unknown : Users.is_sentinel (foreign 5) ≡ false =
      unfold Users.is_sentinel in unfold is in ground arith in
    rw unknown refl

perform-IsAtomic_example :
    (perform millis (Call.set_user_disabled 1 true) troubled).1.tables ≡ troubled.tables
perform-IsAtomic_example =
    perform-IsAtomic millis (Call.set_user_disabled 1 true) troubled (wrap (foreign 5)) fails

-- A file with an account that is logged in, as two calls leave it.
abbrev in_use : Tables
in_use = record {
  users =
      record {
        id = 1;
        email = 1 ∷ [];
        name = 1 ∷ [];
        password_hash = [];
        disabled = false;
        created_at = 5;
        role = 9 ∷ [];
        confirmed = false;
      }
      ∷ [];
  sessions = record { token_hash = 8 ∷ []; user_id = 1; created_at = 0; expires_at = 50 } ∷ [];
  tokens = [];
}

abbrev logged_in : List Call
logged_in =
    map (kept millis)
      (Call.create_first_user (person 1 (9 ∷ [])) ∷ Call.create_session (login_of 1) ∷ [])

in_use-Simulates : Simulates millis in_use (run logged_in new_store)
unfolding run step new_store kept Accounts.create_first_user Sessions.create_session Dict.insert
in_use-Simulates = record { users = refl; sessions = refl; tokens = refl; faultless = refl }

user_by_session-Agrees_example :
    Agrees millis
      (Users.user_by_session millis (8 ∷ []) 20 (calm in_use))
      (Sessions.user_by_session (8 ∷ []) 20000 (run logged_in new_store))
user_by_session-Agrees_example =
    user_by_session-Agrees millis in_use (run logged_in new_store) in_use-Simulates
      (run-IsWellFormed logged_in) (8 ∷ []) 20

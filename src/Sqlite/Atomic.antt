-- ===== src/Sqlite/Atomic.antt =====
-- A call that fails leaves the tables as they were, whichever of its statements failed.
use gouncer.Base.{
  ℕ, ◌≡◌, refl, ◌∙◌, ◌⊎◌, inl, inr, Bool, Option, none, some, List, [], ◌∷◌, GoString, arith, not,
  Bool-cases, ◌==◌, string_eq,
}
use gouncer.Core.Errors.{Error}
use gouncer.Core.Results.{M, Result, ok, err}
use gouncer.Sqlite.Rows.{Driver, Tables, Database, statement}
use gouncer.Sqlite.UserQueries
use gouncer.Sqlite.TokenQueries
use gouncer.Sqlite.Users
use gouncer.Sqlite.Users.{
  signal, failed, failing, ended, committed, begun, in_tx, rollback, created, new_user_params,
  session_params,
}
use gouncer.Sqlite.UserQueries.{insert_user, grant_roleless}
use gouncer.Sqlite.TokenQueries.{insert_session, remove_session, remove_expired_sessions}
use gouncer.Core.Types.{User, Session, Token, purpose_invite, purpose_reset}
use gouncer.Core.Roles.{Roles, holds}
use gouncer.Sqlite.Roles
use gouncer.Sqlite.Tokens
use gouncer.Sqlite.Calls.{perform, counted}
use gouncer.Testkit.Calls.{Call}

-- An answer that is an error comes with the tables of before.
abbrev Keeps : {A : Type 0} → Result A × Database → Database → Type 0
Keeps r db = (e : Error) → r.0 ≡ err e → r.1.tables ≡ db.tables

abbrev pub IsAtomic : {A : Type 0} → M Database A → Type 0
IsAtomic m = (db : Database) → Keeps (m db) db

-- What a statement does keeps the tables where it refuses.
abbrev Refuses : {A : Type 0} → (Tables → Result A × Tables) → Type 0
Refuses f = (t : Tables) (e : Error) → (f t).0 ≡ err e → (f t).1 ≡ t

trouble_cases :
    (l : List (Option Error))
    → (l ≡ [])
      ⊎ (((later : List (Option Error)) × (l ≡ none ∷ later))
          ⊎ ((e : Error) × (later : List (Option Error)) × (l ≡ some e ∷ later)))
trouble_cases [] = inl refl
trouble_cases (none ∷ later) = inr (inl (later, refl))
trouble_cases (some e ∷ later) = inr (inr (e, later, refl))

statement-IsAtomic :
    {A : Type 0} (f : Tables → Result A × Tables) → Refuses f → IsAtomic (statement f)
unfolding statement
statement-IsAtomic f refuses db e h = elim (trouble_cases db.trouble) [
  | inl none_left ↦ ground (arith, refuses db.tables e)
  | inr (inl (later, runs)) ↦ ground (arith, refuses db.tables e)
  | inr (inr (f', later, fails)) ↦ ground arith
]

-- The signals of a transaction leave the tables, whatever they answer.
signal_tables : (db : Database) → (signal db).1.tables ≡ db.tables
unfolding signal statement
signal_tables db = elim (trouble_cases db.trouble) [
  | inl none_left ↦ ground arith
  | inr (inl (later, runs)) ↦ ground arith
  | inr (inr (f', later, fails)) ↦ ground arith
]

committed-Keeps :
    {A : Type 0} (d : Driver) (before : Tables) (a : A) (r : Result (Unit {0}) × Database)
    (e : Error)
    → (committed d before a r).0 ≡ err e
    → (committed d before a r).1.tables ≡ before
committed-Keeps d before a (err f, db) e h = refl
committed-Keeps d before a (ok _, db) e h = absurd (ground arith)

ended-Keeps :
    {A : Type 0} (d : Driver) (before : Tables) (r : Result A × Database) (e : Error)
    → (ended d before r).0 ≡ err e
    → (ended d before r).1.tables ≡ before
unfolding ended
ended-Keeps d before (err f, db) e h = refl
ended-Keeps d before (ok a, db) e h = committed-Keeps d before a (signal db) e h

begun-Keeps :
    {A : Type 0} (d : Driver) (body : M Database A) (r : Result (Unit {0}) × Database) (e : Error)
    → (begun d body r).0 ≡ err e
    → (begun d body r).1.tables ≡ r.1.tables
begun-Keeps d body (err f, db) e h = refl
begun-Keeps d body (ok _, db) e h = ended-Keeps d db.tables (body db) e h

-- A transaction is atomic, whatever its body does.
pub in_tx-IsAtomic : {A : Type 0} (d : Driver) (body : M Database A) → IsAtomic (in_tx d body)
unfolding in_tx
in_tx-IsAtomic d body db e h = begun-Keeps d body (signal db) e h ∙ signal_tables db

failing-Keeps :
    {A : Type 0} (d : Driver) (r : Result A × Database) (db : Database)
    → Keeps r db
    → Keeps (failing d r) db
failing-Keeps d (ok a, t) db keeps e h = absurd (ground arith)
failing-Keeps d (err f, t) db keeps e h = keeps f refl

counted-Keeps :
    (r : Result (Unit {0}) × Database) (db : Database) → Keeps r db → Keeps (counted r) db
counted-Keeps (ok a, t) db keeps e h = absurd (ground arith)
counted-Keeps (err f, t) db keeps e h = keeps f refl

created-Keeps :
    (d : Driver) (r : Result (Unit {0}) × Database) (db : Database)
    → Keeps r db
    → Keeps (created d r) db
created-Keeps d (ok a, t) db keeps e h = absurd (ground arith)
created-Keeps d (err f, t) db keeps e h = keeps f refl

create_user-IsAtomic : (d : Driver) (u : User) → IsAtomic (Users.create_user d u)
unfolding Users.create_user UserQueries.create_user
create_user-IsAtomic d u db =
    created-Keeps d (UserQueries.create_user (new_user_params d u) db) db
      (statement-IsAtomic (insert_user (new_user_params d u)) (λ t e h. ground arith) db)

create_session-IsAtomic : (d : Driver) (x : Session) → IsAtomic (Users.create_session d x)
unfolding Users.create_session TokenQueries.create_session
create_session-IsAtomic d x db =
    failing-Keeps d (TokenQueries.create_session (session_params d x) db) db
      (statement-IsAtomic (insert_session (session_params d x)) (λ t e h. ground arith) db)

delete_session-IsAtomic : (d : Driver) (hash : GoString) → IsAtomic (Users.delete_session d hash)
unfolding Users.delete_session TokenQueries.delete_session
delete_session-IsAtomic d hash db =
    failing-Keeps d (TokenQueries.delete_session hash db) db
      (statement-IsAtomic (remove_session hash) (λ t e h. absurd (ground arith)) db)

delete_expired_sessions-IsAtomic :
    (d : Driver) (now : ℕ) → IsAtomic (Users.delete_expired_sessions d now)
unfolding Users.delete_expired_sessions TokenQueries.delete_expired_sessions
delete_expired_sessions-IsAtomic d now db =
    failing-Keeps d (TokenQueries.delete_expired_sessions (d.to_column now) db) db (
      statement-IsAtomic (remove_expired_sessions (d.to_column now))
        (λ t e h. absurd (ground arith)) db)

grant-IsAtomic : (d : Driver) (role : GoString) → IsAtomic (Roles.grant_role_to_roleless d role)
unfolding Roles.grant_role_to_roleless UserQueries.grant_role_to_roleless
grant-IsAtomic d role db e h = elim (Bool-cases (role == [])) [
  | inl none_given ↦ rw (none_given, Roles.grant_role_to_roleless) refl
  | inr given ↦
      let ran =
        failing-Keeps d (UserQueries.grant_role_to_roleless role db) db
          (statement-IsAtomic (grant_roleless role) (λ t e h. absurd (ground arith)) db) in
      let opened : Roles.grant_role_to_roleless d role db
          ≡ failing d (UserQueries.grant_role_to_roleless role db) =
        rw (given, Roles.grant_role_to_roleless) refl in
      rw opened (ran e (rw opened at h))
]

create_first_user-IsAtomic : (d : Driver) (u : User) → IsAtomic (Users.create_first_user d u)
unfolding Users.create_first_user
create_first_user-IsAtomic d u = in_tx-IsAtomic d (Users.create_first_user_body d u)

set_user_disabled-IsAtomic :
    (d : Driver) (id : ℕ) (disabled : Bool) → IsAtomic (Users.set_user_disabled d id disabled)
unfolding Users.set_user_disabled
set_user_disabled-IsAtomic d id disabled = in_tx-IsAtomic d (Users.disable d id disabled)

under_cover-IsAtomic :
    (d : Driver) (id : ℕ) (privileged : Roles) (removes : Bool)
    (accepts write : M Database (Unit {0}))
    → IsAtomic (Roles.under_cover d id privileged removes accepts write)
unfolding Roles.under_cover
under_cover-IsAtomic d id privileged removes accepts write =
    in_tx-IsAtomic d (Roles.under_cover_body d id privileged removes accepts write)

create_token-IsAtomic :
    (d : Driver) (now : ℕ) (t : Token) (live : ℕ) → IsAtomic (Tokens.create_token d now t live)
unfolding Tokens.create_token
create_token-IsAtomic d now t live = in_tx-IsAtomic d (Tokens.create_token_body d now t live)

replace_token-IsAtomic : (d : Driver) (t : Token) → IsAtomic (Tokens.replace_token d t)
unfolding Tokens.replace_token
replace_token-IsAtomic d t = in_tx-IsAtomic d (Tokens.replace_token_body d t)

redeem-IsAtomic :
    (d : Driver) (hash purpose : GoString) (now : ℕ) (write : ℕ → M Database ℕ)
    → IsAtomic (Tokens.redeem d hash purpose now write)
unfolding Tokens.redeem
redeem-IsAtomic d hash purpose now write =
    in_tx-IsAtomic d (Tokens.redeem_body d hash purpose now write)

delete_expired_tokens-IsAtomic :
    (d : Driver) (now : ℕ) → IsAtomic (Tokens.delete_expired_tokens d now)
unfolding Tokens.delete_expired_tokens
delete_expired_tokens-IsAtomic d now = in_tx-IsAtomic d (Tokens.delete_expired_tokens_body d now)

-- Whatever befalls the statements of a call, and the start and the end of its transaction, a call that
-- changes the SQLite store and answers an error leaves every table as it was.
pub perform-IsAtomic :
    (d : Driver) (c : Call) (db : Database) (e : Error)
    → (perform d c db).0 ≡ err e
    → (perform d c db).1.tables ≡ db.tables
unfolding perform Roles.set_user_disabled_under_cover Roles.set_user_disabled_from
    Roles.set_user_role Roles.set_user_role_from Tokens.activate_by_token Tokens.reset_by_token
perform-IsAtomic d (Call.create_user u) db =
    counted-Keeps (Users.create_user d u db) db (create_user-IsAtomic d u db)
perform-IsAtomic d (Call.create_first_user u) db =
    counted-Keeps (Users.create_first_user d u db) db (create_first_user-IsAtomic d u db)
perform-IsAtomic d (Call.grant_role_to_roleless role) db = grant-IsAtomic d role db
perform-IsAtomic d (Call.create_session x) db =
    counted-Keeps (Users.create_session d x db) db (create_session-IsAtomic d x db)
perform-IsAtomic d (Call.delete_session hash) db =
    counted-Keeps (Users.delete_session d hash db) db (delete_session-IsAtomic d hash db)
perform-IsAtomic d (Call.delete_expired_sessions now) db = delete_expired_sessions-IsAtomic d now db
perform-IsAtomic d (Call.set_user_disabled id disabled) db =
    counted-Keeps (Users.set_user_disabled d id disabled db) db
      (set_user_disabled-IsAtomic d id disabled db)
perform-IsAtomic d (Call.set_user_disabled_under_cover id disabled privileged) db =
    counted-Keeps (Roles.set_user_disabled_under_cover d id disabled privileged db) db (
      under_cover-IsAtomic d id privileged disabled (Roles.any_role d)
        (Roles.write_disabled d id disabled) db)
perform-IsAtomic d (Call.set_user_disabled_from id held disabled privileged) db =
    counted-Keeps (Roles.set_user_disabled_from d id held disabled privileged db) db (
      under_cover-IsAtomic d id privileged disabled (Roles.still_holds d id held)
        (Roles.write_disabled d id disabled) db)
perform-IsAtomic d (Call.set_user_role id role privileged) db =
    counted-Keeps (Roles.set_user_role d id role privileged db) db (
      under_cover-IsAtomic d id privileged (not (holds privileged role)) (Roles.any_role d)
        (Roles.write_role d id role) db)
perform-IsAtomic d (Call.set_user_role_from id held role privileged) db =
    counted-Keeps (Roles.set_user_role_from d id held role privileged db) db (
      under_cover-IsAtomic d id privileged (not (holds privileged role))
        (Roles.still_holds d id held) (Roles.write_role d id role) db)
perform-IsAtomic d (Call.create_token now t live) db =
    counted-Keeps (Tokens.create_token d now t live db) db (create_token-IsAtomic d now t live db)
perform-IsAtomic d (Call.replace_token t) db =
    counted-Keeps (Tokens.replace_token d t db) db (replace_token-IsAtomic d t db)
perform-IsAtomic d (Call.activate_by_token hash now password_hash) db =
    redeem-IsAtomic d hash purpose_invite now (UserQueries.activate_user password_hash) db
perform-IsAtomic d (Call.reset_by_token hash now password_hash) db =
    redeem-IsAtomic d hash purpose_reset now (Tokens.reset_write d password_hash) db
perform-IsAtomic d (Call.delete_expired_tokens now) db = delete_expired_tokens-IsAtomic d now db

-- ===== src/Sqlite/Calls.antt =====
-- The calls that change a store, made on the SQLite store and on the one of testkit: what each answers,
-- a count where the method answers none being 0, and what it leaves.
use gouncer.Base.{ℕ}
use gouncer.Core.Results.{M, Result, ok, err}
use gouncer.Sqlite.Rows.{Driver, Database}
use gouncer.Sqlite.Users
use gouncer.Sqlite.Roles
use gouncer.Sqlite.Tokens
use gouncer.Testkit.State.{Store}
use gouncer.Testkit.Accounts
use gouncer.Testkit.Sessions
use gouncer.Testkit.Guard
use gouncer.Testkit.Tokens as TestTokens
use gouncer.Testkit.Sweep
use gouncer.Testkit.Calls.{Call}

abbrev pub counted : {S : Type 0} → Result (Unit {0}) × S → Result ℕ × S
counted (ok _, s) = (ok 0, s)
counted (err e, s) = (err e, s)

unfoldable pub perform : Driver → Call → M Database ℕ
perform d (Call.create_user u) db = counted (Users.create_user d u db)
perform d (Call.create_first_user u) db = counted (Users.create_first_user d u db)
perform d (Call.grant_role_to_roleless role) db = Roles.grant_role_to_roleless d role db
perform d (Call.create_session x) db = counted (Users.create_session d x db)
perform d (Call.delete_session hash) db = counted (Users.delete_session d hash db)
perform d (Call.delete_expired_sessions now) db = Users.delete_expired_sessions d now db
perform d (Call.set_user_disabled id disabled) db =
    counted (Users.set_user_disabled d id disabled db)
perform d (Call.set_user_disabled_under_cover id disabled privileged) db =
    counted (Roles.set_user_disabled_under_cover d id disabled privileged db)
perform d (Call.set_user_disabled_from id held disabled privileged) db =
    counted (Roles.set_user_disabled_from d id held disabled privileged db)
perform d (Call.set_user_role id role privileged) db =
    counted (Roles.set_user_role d id role privileged db)
perform d (Call.set_user_role_from id held role privileged) db =
    counted (Roles.set_user_role_from d id held role privileged db)
perform d (Call.create_token now t live) db = counted (Tokens.create_token d now t live db)
perform d (Call.replace_token t) db = counted (Tokens.replace_token d t db)
perform d (Call.activate_by_token hash now password_hash) db =
    Tokens.activate_by_token d hash now password_hash db
perform d (Call.reset_by_token hash now password_hash) db =
    Tokens.reset_by_token d hash now password_hash db
perform d (Call.delete_expired_tokens now) db = Tokens.delete_expired_tokens d now db

unfoldable pub perform_testkit : Call → M Store ℕ
perform_testkit (Call.create_user u) s = counted (Accounts.create_user u s)
perform_testkit (Call.create_first_user u) s = counted (Accounts.create_first_user u s)
perform_testkit (Call.grant_role_to_roleless role) s = Accounts.grant_role_to_roleless role s
perform_testkit (Call.create_session x) s = counted (Sessions.create_session x s)
perform_testkit (Call.delete_session hash) s = counted (Sessions.delete_session hash s)
perform_testkit (Call.delete_expired_sessions now) s = Sessions.delete_expired_sessions now s
perform_testkit (Call.set_user_disabled id disabled) s =
    counted (Guard.set_user_disabled id disabled s)
perform_testkit (Call.set_user_disabled_under_cover id disabled privileged) s =
    counted (Guard.set_user_disabled_under_cover id disabled privileged s)
perform_testkit (Call.set_user_disabled_from id held disabled privileged) s =
    counted (Guard.set_user_disabled_from id held disabled privileged s)
perform_testkit (Call.set_user_role id role privileged) s =
    counted (Guard.set_user_role id role privileged s)
perform_testkit (Call.set_user_role_from id held role privileged) s =
    counted (Guard.set_user_role_from id held role privileged s)
perform_testkit (Call.create_token now t live) s = counted (TestTokens.create_token now t live s)
perform_testkit (Call.replace_token t) s = counted (TestTokens.replace_token t s)
perform_testkit (Call.activate_by_token hash now password_hash) s =
    TestTokens.activate_by_token hash now password_hash s
perform_testkit (Call.reset_by_token hash now password_hash) s =
    TestTokens.reset_by_token hash now password_hash s
perform_testkit (Call.delete_expired_tokens now) s = Sweep.delete_expired_tokens now s

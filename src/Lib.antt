-- ===== src/Lib.antt =====
-- gouncer: composable authentication primitives for Go, and authkit, login, invites and account
-- administration on top of them.
--
-- A program made of these parts keeps accounts, login sessions and single-use tokens in a store. The
-- root package makes them: it checks a new account's email, name and password, hashes the
-- password, and draws the secrets of sessions and tokens, of which a store keeps the hash. authkit
-- runs the flows over any store that offers its interfaces: it invites accounts and resets passwords,
-- logs in and keeps sessions, and administers accounts under roles, with a guard that keeps an
-- enabled account in a privileged role.
--
-- Which file models which part:
-- - Base: helpers. Base/Dict is a Go map as a list of entries, Base/Int are signed numbers.
-- - Go: what the program uses of Go's standard library, written out: UTF-8, white space,
--   trimming, splitting and lower case, base64 and the scan of `%d`.
-- - Core: the root package. Core/Errors are the sentinels of the packages and `errors.Is`;
--   Core/Results is the error result and a method on a state; Core/Types are `User`, `Session`
--   and `Token`; Core/Roles is role.go; Core/Identity is gouncer.go and name.go, with what is
--   proved of them in Names, Tidy and Accounts; Core/Tokens is session.go and token.go;
--   Core/Password is password.go, with its round trip in RoundTrip.
-- - Testkit: the store of authkit/testkit/store.go. State are its fields and the errors a test
--   forces; Accounts, Sessions, Guard, Tokens and Sweep its methods; Calls a history of calls.
--   Cases states the outcomes of each method; WellFormed, Invariant, Cover, Access, Sweeping,
--   Uncovering and Removal prove the properties.
-- - Sqlite: the store of authkit/sqlite. Rows are the tables of its migration and of
--   internal/db/models.go and what a statement does to a table; UserQueries and TokenQueries are the
--   queries of internal/db/queries.sql.go; Users is store.go and setup.go, Roles is role.go and Tokens is
--   invite.go; Calls makes the calls of Testkit/Calls on both stores. Atomic is about statements that fail;
--   View, Keyed and Sweeping compare rows with a Go map, Simulation says when tables stand for a store of
--   testkit, the files named ...Simulation and Transaction compare the methods, and Refinement compares
--   histories.
-- - Authkit: Stores are the interfaces of store.go, authkit/invite.go and authkit/admin.go as
--   records of operations; Invites is authkit/invite.go; Service is authkit/service.go and
--   authkit/identity.go with the configuration of authkit/authkit.go; Admin is authkit/admin.go and
--   authkit/role.go; ErrorResponses is the table of authkit/json.go; Reaper is the sweep of
--   authkit/reaper.go and ReaperLoop its loop, Start and Stop as a step relation; Http are handlers of
--   authkit/authkit.go and authkit/admin.go as replies; Bootstrap is authkit/ensureadmin.go and
--   authkit/createadmin.go; Instance shows that the store of Testkit offers the interfaces; Login,
--   Onboarding (by the steps of Activation), Secrets (by those of SecretFree), Administration,
--   Reaping, FirstAccounts, Responses and Replies prove the properties, and Examples, Cases and
--   ReaperCases apply them.
-- - Ratelimit: authkit/ratelimit/ratelimit.go. Limiter is the count of failed logins and the limit stage
--   of the middleware, in two halves around the wrapped handler; Traffic is that stage under requests that
--   overlap, since it holds no lock between its check and the record of a failure, whose error it drops.
--   Proxies is the client address behind trusted proxies, with the panics of its constructor. Budget and
--   Trust prove the properties.
-- - Avatar: the package avatar. Unicode is lower.go, Initials is initials.go, Gravatar is gravatar.go and
--   Options is avatar.go; Colours and Sizes prove the properties. A hash of 64 bits is `none` once a sum
--   of it leaves 63 bits.
--
-- How state and operations correspond: a method of a store is a function from the store to its
-- answer and the store it leaves (`M`), written in the order of the source with its early returns. An
-- error leaves what the method did before it. A method holds the store's mutex throughout, so
-- one call is one step and a history is a list of calls. A Go map is a list of entries of which
-- no two share a key; the order of a Go map is not fixed, and no method depends on it beyond the
-- order of `UsersByIDs`. A string is the list of its bytes. An id is the number of its bytes, with
-- `uuid.Nil` 0; an instant and a length of time count nanoseconds, and an instant before the first of a
-- run is not told from it.
--
-- A table is the list of its rows. A statement answers and changes the tables, or fails with the error
-- that the list `trouble` of the database holds for it, which stands for a busy file, a cancelled context
-- or a broken disk; the begin and the commit of a transaction fail likewise, and a rollback restores the
-- tables of the begin. SQLite runs one writing transaction at a time, so a call is one step.
--
-- What is a parameter: the module dbkit and the SQLite driver (the record `Driver` of Sqlite/Rows: how
-- a time is kept in a column, how an error is classed, a text that goes through JSON), with the
-- hypotheses that times read back are ordered as columns are and that a row that breaks a unique index
-- is known as such; the counter of httprate (Ratelimit/Limiter), of which Budget states what it
-- documents; net, netip and chi's middleware (Ratelimit/Proxies), of which Trust states which ranges
-- it parses; the tables of unicode, XML, base64 and URL encoding (Avatar/Unicode); sha256, argon2, the
-- parser of mail addresses and the lower case of a rune (Core/Platform), and the clock, the random
-- source and the id source of one call (`Env`); one call reads one instant. What the theorems need of
-- them, such as that argon2 writes as many bytes as it is asked for, stands among their hypotheses.
--
-- Fuel: only the decimal digits of a number run on fuel, one more than the number, and a number
-- has no more digits than that.
--
-- What is not modelled: the handlers that list and create accounts, the decoding and writing of
-- bodies, and cookies beyond a cookie's name, value and age; the Postgres store, and the migrations
-- of the SQLite store; first-run setup, a negative limit or window of the rate limiter and the
-- reaper's timer; the time that a login takes; `AddUser`, a fixture of tests; the browser code.
pub mod Base
pub mod Go
pub mod Core
pub mod Testkit
pub mod Authkit
pub mod Sqlite
pub mod Ratelimit
pub mod Avatar

-- ===== src/Sqlite/Transaction.antt =====
-- The body of a transaction and the method of testkit that does the same.
use gouncer.Base.{◌≡◌, true, arith}
use gouncer.Core.Errors.{
  Error, is, token_exists, token_not_found, user_not_found, last_privileged, role_changed,
  setup_done,
}
use gouncer.Core.Results.{M, Result, ok, err}
use gouncer.Sqlite.Rows.{Driver, Tables, Database}
use gouncer.Sqlite.Users.{in_tx, is_sentinel}
use gouncer.Sqlite.Keyed.{in_tx-ok, in_tx-err}
use gouncer.Sqlite.Simulation.{calm, Simulates, Agrees, Agrees-of}
use gouncer.Testkit.State.{Store}

-- Errors that a transaction answers as they are.
pub user_not_found-known : is_sentinel user_not_found ≡ true
unfolding is_sentinel is
user_not_found-known = ground arith

pub token_exists-known : is_sentinel token_exists ≡ true
unfolding is_sentinel is
token_exists-known = ground arith

pub token_not_found-known : is_sentinel token_not_found ≡ true
unfolding is_sentinel is
token_not_found-known = ground arith

pub last_privileged-known : is_sentinel last_privileged ≡ true
unfolding is_sentinel is
last_privileged-known = ground arith

pub role_changed-known : is_sentinel role_changed ≡ true
unfolding is_sentinel is
role_changed-known = ground arith

pub setup_done-known : is_sentinel setup_done ≡ true
unfolding is_sentinel is
setup_done-known = ground arith

-- Both refuse with a known error, the store as the tables were, or both answer.
pub data BodyAgrees {A : Type 0} (d : Driver) (t : Tables) (r : Result A × Database)
    (q : Result A × Store) : Type 0 where
  refused :
      (e : Error) (u : Tables) (s : Store)
      → is_sentinel e ≡ true
      → r ≡ (err e, calm u)
      → q ≡ (err e, s)
      → Simulates d t s
      → BodyAgrees d t r q
  answered :
      (a : A) (u : Tables) (s : Store)
      → r ≡ (ok a, calm u)
      → q ≡ (ok a, s)
      → Simulates d u s
      → BodyAgrees d t r q

pub in_tx-Agrees :
    {A : Type 0} (d : Driver) (t : Tables) (body : M Database A) (q : Result A × Store)
    → BodyAgrees d t (body (calm t)) q
    → Agrees d (in_tx d body (calm t)) q
in_tx-Agrees d t body q (refused e u s known ran made sim) =
    Agrees-of d _ _ (err e) t s (in_tx-err d body t e u ran known) made sim
in_tx-Agrees d t body q (answered a u s ran made sim) =
    Agrees-of d _ _ (ok a) u s (in_tx-ok d body t a u ran) made sim

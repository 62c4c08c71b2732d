-- ===== src/Ratelimit/Limiter.antt =====
-- The limiter and the middleware of authkit/ratelimit/ratelimit.go. A limit and a length of time are
-- natural numbers, and an instant counts nanoseconds from the zero time of Go.
use gouncer.Base.{
  ℕ, zero, suc, ◌-◌, ◌*◌, ◌/◌, ◌%◌, Bool, true, false, Option, none, some, GoString, leb, nat_eq,
  ◌==◌, if◌then◌else◌,
}
use gouncer.Core.Results.{Result, ok, err}

abbrev pub default_limit : ℕ
default_limit = 10

abbrev pub default_window : ℕ
default_window = 60000000000

-- `Config`, with the ranges of its trusted proxies left to the resolver.
pub record Config : Type 0 where
  pub limit : ℕ
  pub window : ℕ

-- `limitAndWindow`
abbrev pub or_default : ℕ → ℕ → ℕ
or_default zero default = default
or_default (suc n) default = suc n

unfoldable pub limit_and_window : Config → ℕ × ℕ
limit_and_window cfg = (or_default cfg.limit default_limit, or_default cfg.window default_window)

-- What the module httprate does with a counter: `status` is `int(math.Round(rate))` of the rate that
-- `Status` answers for a key at an instant, and `increment_by` is the counter's `IncrementBy`.
pub record Counter (C : Type 0) : Type 0 where
  pub status : GoString → ℕ → C → Result ℕ
  pub increment_by : GoString → ℕ → ℕ → C → Result (Unit {0}) × C

-- `Limiter`
pub record Limiter : Type 0 where
  pub limit : ℕ
  pub window : ℕ

-- `newLimiterUsing`
unfoldable pub new_limiter_using : Config → Limiter
unfolding limit_and_window
new_limiter_using cfg =
    let (limit, window) = limit_and_window cfg in record { limit = limit; window = window }

-- `Truncate` of an instant
abbrev pub truncate : ℕ → ℕ → ℕ
truncate now window = now - now % window

-- What the middleware answers itself.
pub data Reply : Type 0 where
  internal : Reply
  limited : ℕ → Reply

module _ {C : Type 0} (counter : Counter C) (l : Limiter) where
  abbrev pub judged : Result ℕ → Result (Bool × ℕ)
  judged (ok rate) = if leb l.limit rate then ok (false, 2 * l.window) else ok (true, 0)
  judged (err e) = err e

  -- `Check`
  unfoldable pub check : GoString → ℕ → C → Result (Bool × ℕ)
  check key now c = judged (counter.status key now c)

  -- `RecordFailure`
  unfoldable pub record_failure : GoString → ℕ → C → Result (Unit {0}) × C
  record_failure key now c = counter.increment_by key (truncate now l.window) 1 c

  abbrev pub passage : Result (Bool × ℕ) → Option Reply
  passage (err e) = some internal
  passage (ok (false, retry_after)) = some (limited (retry_after / 1000000000))
  passage (ok (true, _)) = none

  -- The limit stage of `middlewareUsing` before the wrapped handler: its own reply, or none where it
  -- passes the request on. The counter stays as it is.
  unfoldable pub limit_enter : GoString → ℕ → C → Option Reply
  unfolding check
  limit_enter key now c = passage (check key now c)

  -- The limit stage behind the wrapped handler, which answered the status. An error of the counter is
  -- dropped.
  unfoldable pub limit_leave : GoString → ℕ → ℕ → C → C
  unfolding record_failure
  limit_leave key now status c = if status == 401 then (record_failure key now c).1 else c

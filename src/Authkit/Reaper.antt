-- ===== src/Authkit/Reaper.antt =====
-- reaper.go: one sweep of what has expired. The loop that repeats it is timing.
use gouncer.Base.{ℕ, Option, none, some}
use gouncer.Core.Errors.{sweep_sessions, sweep_tokens, join}
use gouncer.Core.Results.{M, Result, ok, err}

-- `SessionReaper`, with the `DeleteExpiredTokens` of `TokenReaper` that a store may offer besides.
pub record SessionReaper (S : Type 0) : Type 0 where
  pub delete_expired_sessions : ℕ → M S ℕ
  pub delete_expired_tokens : Option (ℕ → M S ℕ)

-- What a sweep answers: the sessions and the tokens deleted, and the error if one half failed.
pub record Swept : Type 0 where
  pub sessions : ℕ
  pub tokens : ℕ
  pub failed : Result (Unit {0})

-- The token half, after so many sessions were deleted.
unfoldable pub sweep_tokens_half : {S : Type 0} → ℕ → Result ℕ → S → Swept × S
sweep_tokens_half n (err e) s =
    (record { sessions = n; tokens = 0; failed = err (join sweep_tokens e) }, s)
sweep_tokens_half n (ok m) s = (record { sessions = n; tokens = m; failed = ok tt }, s)

unfoldable pub after_sessions : {S : Type 0} → SessionReaper S → ℕ → Result ℕ → S → Swept × S
unfolding sweep_tokens_half
after_sessions store now (err e) s =
    (record { sessions = 0; tokens = 0; failed = err (join sweep_sessions e) }, s)
after_sessions store now (ok n) s = elim store.delete_expired_tokens [
  | none ↦ (record { sessions = n; tokens = 0; failed = ok tt }, s)
  | some delete ↦ let (answer, t) = delete now s in sweep_tokens_half n answer t
]

-- `Sweep`
unfoldable pub sweep : {S : Type 0} → SessionReaper S → ℕ → S → Swept × S
unfolding after_sessions
sweep store now s =
    let (answer, t) = store.delete_expired_sessions now s in after_sessions store now answer t

-- ===== src/Base/Int.antt =====
-- Signed numbers, for lengths of time and counts that a caller may give below zero.
use gouncer.Base.{ℕ, ◌+◌, ◌-◌, zero, suc, Bool, true, false}

-- `negsuc n` is -(n + 1).
pub data ℤ : Type 0 where
  pos : ℕ → ℤ
  negsuc : ℕ → ℤ

abbrev pub is_zero : ℤ → Bool
is_zero (pos zero) = true
is_zero (pos (suc n)) = false
is_zero (negsuc n) = false

-- `0 < z`
abbrev pub is_positive : ℤ → Bool
is_positive (pos zero) = false
is_positive (pos (suc n)) = true
is_positive (negsuc n) = false

-- `t.Add(z)`, the instants counted from one that lies before every instant of a run.
abbrev pub add : ℕ → ℤ → ℕ
add t (pos n) = t + n
add t (negsuc n) = t - suc n

-- ===== src/Core/Platform.antt =====
-- What the package calls and does not implement, and what one call reads from the machine.
use gouncer.Base.{ℕ, List, Option, GoString}

-- Functions of other packages: `sha256.Sum256`, `argon2.IDKey` (password, salt, time, memory,
-- threads, key length), `mail.ParseAddress` (the address parsed), `unicode.ToLower`.
pub record Platform : Type 0 where
  pub sha256 : GoString → GoString
  pub argon2_key : GoString → GoString → ℕ → ℕ → ℕ → ℕ → GoString
  pub parse_address : GoString → Option GoString
  pub to_lower : ℕ → ℕ

-- `time.Now`, `randRead` for a number of bytes, and `uuid.NewV7`; `none` is a failure.
pub record Env : Type 0 where
  pub now : ℕ
  pub random : ℕ → Option (List ℕ)
  pub new_id : Option ℕ

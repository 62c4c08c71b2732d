-- ===== src/Core/Errors.antt =====
-- The error values of gouncer.go, store.go, token.go and of authkit, and `errors.Is`.
use gouncer.Base.{ℕ, Bool, ◌||◌, Eq, ◌==◌, ℕ_discrete}

pub data Error : Type 0 where
  -- gouncer
  invalid_email empty_name weak_password name_too_long password_too_long : Error
  user_not_found email_taken last_privileged empty_role session_not_found : Error
  nil_user_id empty_purpose token_lifetime token_not_found token_exists : Error
  -- authkit
  invalid_credentials unknown_role user_not_editable role_not_grantable role_changed : Error
  already_activated self_disable self_role body_too_large : Error
  setup_done setup_code_invalid setup_code_expired setup_code_file setup_misconfigured : Error
  sweep_sessions sweep_tokens : Error
  -- An error of another package, and an error value that this one wraps no sentinel in.
  foreign : ℕ → Error
  -- `fmt.Errorf("...: %w", e)` and `fmt.Errorf("%w: %w", e, f)`
  wrap : Error → Error
  join : Error → Error → Error

pub Error-discrete : Discrete Error
Error-discrete = hlevel ℕ_discrete

instance unfoldable pub error_eq : Eq Error
unfolding Error-discrete
error_eq = record { dec = Error-discrete }

-- `errors.Is`, for a target that is a sentinel.
unfoldable pub is : Error → Error → Bool
is (wrap e) target = is e target
is (join e f) target = is e target || is f target
is e target = e == target

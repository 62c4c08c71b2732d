-- ===== src/Authkit/ErrorResponses.antt =====
-- json.go: the status and body that an error is answered with.
use gouncer.Base.{ℕ, Option, none, some, List, [], ◌∷◌, GoString, codes, if◌then◌else◌}
use gouncer.Core.Errors.{
  Error, is, invalid_email, empty_name, name_too_long, weak_password, password_too_long,
  user_not_found, email_taken, unknown_role, user_not_editable, role_not_grantable, role_changed,
  setup_done, setup_code_invalid, setup_code_expired, setup_code_file, setup_misconfigured,
}

-- A value of `ErrorResponse.Meta`
pub data Meta : Type 0 where
  bound : GoString → ℕ → Meta
  field : GoString → Meta

-- `ErrorResponse`
pub record ErrorResponse : Type 0 where
  pub message : GoString
  pub code : GoString
  pub meta : Option Meta

abbrev response : GoString → GoString → ErrorResponse
response message code = record { message = message; code = code; meta = none }

abbrev response_with : GoString → GoString → Meta → ErrorResponse
response_with message code meta = record { message = message; code = code; meta = some meta }

abbrev pub internal_error : ErrorResponse
internal_error = response (codes "internal error") (codes "internal")

-- An entry of `authErrors`
pub record AuthError : Type 0 where
  pub held : Error
  pub status : ℕ
  pub body : ErrorResponse

abbrev entry : Error → ℕ → ErrorResponse → AuthError
entry held status body = record { held = held; status = status; body = body }

-- `authErrors`
abbrev pub auth_errors : List AuthError
auth_errors =
    entry setup_misconfigured 500 internal_error
    ∷ entry invalid_email 422 (response (codes "invalid email address") (codes "email_invalid"))
    ∷ entry empty_name 422 (response (codes "name is required") (codes "name_required"))
    ∷ entry name_too_long 422 (
        response_with (codes "name must be at most 256 characters") (codes "name_too_long")
          (bound (codes "max") 256))
    ∷ entry weak_password 422 (
        response_with (codes "password must be at least 12 characters") (codes "password_too_short")
          (bound (codes "min") 12))
    ∷ entry password_too_long 422 (
        response_with (codes "password must be at most 1024 characters") (codes "password_too_long")
          (bound (codes "max") 1024))
    ∷ entry user_not_found 404 (response (codes "user not found") (codes "user_not_found"))
    ∷ entry email_taken 409 (response (codes "email already in use") (codes "email_taken"))
    ∷ entry unknown_role 422
        (response_with (codes "unknown role") (codes "role_unknown") (field (codes "role")))
    ∷ entry user_not_editable 403 (
        response (codes "Sorry, you are not allowed to edit this user.")
          (codes "user_not_editable"))
    ∷ entry role_not_grantable 403 (
        response (codes "Sorry, you are not allowed to give users that role.")
          (codes "role_not_grantable"))
    ∷ entry role_changed 409 (response (codes "role changed") (codes "role_changed"))
    ∷ entry setup_done 409 (response (codes "setup already done") (codes "setup_done"))
    ∷ entry setup_code_invalid 401
        (response (codes "setup code invalid") (codes "setup_code_invalid"))
    ∷ entry setup_code_expired 401
        (response (codes "setup code expired") (codes "setup_code_expired"))
    ∷ entry setup_code_file 500
        (response (codes "setup code file unusable") (codes "setup_code_file"))
    ∷ []

-- The loop of `ErrorResponseForAuthError`
unfoldable pub first_match : Error → List AuthError → Option (ℕ × ErrorResponse)
unfolding is
first_match e [] = none
first_match e (x ∷ xs) =
    let rest = first_match e xs in if is e x.held then some (x.status, x.body) else rest

-- `ErrorResponseForAuthError`
unfoldable pub error_response_for_auth_error : Error → Option (ℕ × ErrorResponse)
unfolding first_match
error_response_for_auth_error e = first_match e auth_errors

-- `StatusForAuthError`
unfoldable pub status_for_auth_error : Error → Option (ℕ × GoString)
unfolding error_response_for_auth_error
status_for_auth_error e = elim (error_response_for_auth_error e) [
  | none ↦ none
  | some (status, body) ↦ some (status, body.message)
]

-- What `respondAuthError` writes: the status and the body.
unfoldable pub respond_auth_error : Error → ℕ × ErrorResponse
unfolding error_response_for_auth_error
respond_auth_error e = elim (error_response_for_auth_error e) [
  | some answer ↦ answer
  | none ↦ (500, internal_error)
]

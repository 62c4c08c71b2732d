-- ===== src/Authkit/Http.antt =====
-- The handlers of authkit.go and admin.go, as what they reply. What encoding/json, net/http and
-- uuid make of a request is an argument: the body or the error of its decoding, the value of the session
-- cookie, and the id of the path.
use gouncer.Base.{
  ℕ, Bool, true, false, not, ◌&&◌, Option, none, some, List, [], ◌∷◌, GoString, codes,
  if◌then◌else◌, string_eq, contains,
}
use gouncer.Core.Errors.{
  Error, is, body_too_large, invalid_credentials, session_not_found, last_privileged, self_disable,
  self_role,
}
use gouncer.Core.Results.{Result, ok, err}
use gouncer.Core.Roles.{Roles, holds}
use gouncer.Core.Platform.{Platform, Env}
use gouncer.Authkit.Stores.{AuthStore, AdminStore}
use gouncer.Authkit.Service.{
  Handlers, Identity, Cookie, authenticate, start_session, end_session, session_identity,
}
use gouncer.Authkit.Admin.{
  Admin, held_editable, role_change_held, set_account_disabled_from, set_account_role_from,
}
use gouncer.Authkit.ErrorResponses.{ErrorResponse, bound, field, internal_error, respond_auth_error}

-- The reply to a request: its status, its body, and a cookie that it sets. A body is absent where
-- the handler writes a status alone.
pub data Body : Type 0 where
  identity_body : Identity → Body
  error_body : ErrorResponse → Body
  no_body : Body

pub record Reply : Type 0 where
  pub status : ℕ
  pub body : Body
  pub cookie : Option Cookie

abbrev pub error_reply : ℕ → ErrorResponse → Reply
error_reply status e = record { status = status; body = error_body e; cookie = none }

abbrev pub refusal : ℕ → GoString → GoString → Reply
refusal status message code =
    error_reply status (record { message = message; code = code; meta = none })

abbrev pub auth_error_reply : Error → Reply
auth_error_reply e = let (status, body) = respond_auth_error e in error_reply status body

abbrev pub internal_reply : Reply
internal_reply = error_reply 500 internal_error

abbrev pub max_request_body_bytes : ℕ
max_request_body_bytes = 1048576

-- `respondDecodeError`
unfoldable pub respond_decode_error : Error → GoString → Reply
unfolding is
respond_decode_error e message =
    if is e body_too_large
    then error_reply 413 (record {
      message = codes "request body too large";
      code = codes "body_too_large";
      meta = some (bound (codes "max") max_request_body_bytes);
    })
    else refusal 400 message (codes "body_malformed")

pub record Credentials : Type 0 where
  pub email : GoString
  pub password : GoString

-- What a middleware does: it replies itself, or passes the request on with an identity.
pub data Passage : Type 0 where
  stopped : Reply → Passage
  passed : Identity → Passage

-- Whether some role is named.
abbrev pub is_given : Roles → Bool
is_given [] = false
is_given (_ ∷ _) = true

-- `RequirePrivilege`, and the test of `refuseUnprivileged`
unfoldable pub require_privilege : Roles → Identity → Passage
unfolding holds
require_privilege privileged who =
    if is_given privileged && not (holds privileged who.role)
    then stopped (refusal 403 (codes "role insufficient") (codes "role_insufficient"))
    else passed who

abbrev pub capabilities_held : Identity → List GoString
capabilities_held who = elim who.capabilities [ none ↦ [] | some held ↦ held ]

-- `RequireCapability`
unfoldable pub require_capability : GoString → Identity → Passage
unfolding contains
require_capability capability who =
    if not (contains (capabilities_held who) capability)
    then stopped (
        error_reply 403 (record {
          message = codes "capability missing";
          code = codes "capability_missing";
          meta = some (field capability);
        }))
    else passed who

module _ {S : Type 0} (platform : Platform) (store : AuthStore S) (h : Handlers) (env : Env) where
  abbrev after_start : Identity → Result Cookie → Reply
  after_start who (err e) = internal_reply
  after_start who (ok cookie) = record {
    status = 200;
    body = identity_body who;
    cookie = some cookie;
  }

  abbrev after_authenticate : Result Identity → S → Reply × S
  after_authenticate (err e) s =
      if is e invalid_credentials
      then (refusal 401 (codes "invalid credentials") (codes "credentials_invalid"), s)
      else (internal_reply, s)
  after_authenticate (ok who) s =
      let (started, t) = start_session platform store h env who.id s in (after_start who started, t)

  -- `Login`
  unfoldable pub login : Result Credentials → S → Reply × S
  unfolding authenticate start_session respond_decode_error is
  login (err e) s = (respond_decode_error e (codes "malformed login request"), s)
  login (ok body) s =
      let (answer, t) = authenticate platform store h env body.email body.password s in
      after_authenticate answer t

  abbrev cleared : Result Cookie → Reply
  cleared (err e) = internal_reply
  cleared (ok cookie) = record { status = 204; body = no_body; cookie = some cookie }

  abbrev cookie_value : Option GoString → GoString
  cookie_value none = []
  cookie_value (some value) = value

  -- `Logout`
  unfoldable pub logout : Option GoString → S → Reply × S
  unfolding end_session
  logout value s =
      let (answer, t) = end_session platform store h env (cookie_value value) s in
      (cleared answer, t)

  abbrev no_session : Reply
  no_session = refusal 401 (codes "no session") (codes "session_absent")

  abbrev after_identity : Result Identity → Passage
  after_identity (ok who) = passed who
  after_identity (err e) =
      if is e session_not_found then stopped no_session else stopped internal_reply

  -- `RequireSession`
  unfoldable pub require_session : Option GoString → S → Passage × S
  unfolding session_identity is
  require_session none s = (stopped no_session, s)
  require_session (some value) s =
      let (answer, t) = session_identity platform store h env value s in (after_identity answer, t)

abbrev pub no_content : Reply
no_content = record { status = 204; body = no_body; cookie = none }

-- The replies to a write: the error of an actor changing itself, `refuseLastPrivileged`, and the rest.
unfoldable pub after_write : Error → Reply → Result (Unit {0}) → Reply
unfolding is
after_write self refused (ok _) = no_content
after_write self refused (err e) =
    if is e self
    then refused
    else if is e last_privileged
    then refusal 422 (codes "the last privileged account must remain")
        (codes "last_privileged_refused")
    else auth_error_reply e

abbrev pub required : GoString → GoString → Reply
required message name =
    error_reply 422
      (record { message = message; code = codes "body_field_required"; meta = some (field name) })

module _ {S : Type 0} (platform : Platform) (store : AdminStore S) (a : Admin) (env : Env) where
  abbrev malformed_id : Reply
  malformed_id = refusal 400 (codes "malformed user id") (codes "user_id_malformed")

  abbrev write_disabled : Identity → ℕ → Bool → Result GoString → S → Reply × S
  write_disabled who id disabled (err e) s = (auth_error_reply e, s)
  write_disabled who id disabled (ok held) s =
      let (answer, t) = set_account_disabled_from platform store a env who.id id held disabled s in
      (
        after_write self_disable
            (refusal 422 (codes "cannot disable your own account") (codes "self_disable_refused"))
            answer,
        t,
      )

  abbrev decoded_disabled : Identity → ℕ → Result (Option Bool) → S → Reply × S
  decoded_disabled who id (err e) s = (respond_decode_error e (codes "malformed json"), s)
  decoded_disabled who id (ok none) s =
      (required (codes "disabled is required") (codes "disabled"), s)
  decoded_disabled who id (ok (some disabled)) s =
      let (held, t) = held_editable platform store a env who.role id (not disabled) s in
      write_disabled who id disabled held t

  abbrev disabled_at : Identity → Option ℕ → Result (Option Bool) → S → Reply × S
  disabled_at who none body s = (malformed_id, s)
  disabled_at who (some id) body s = decoded_disabled who id body s

  abbrev admitted : Passage → (S → Reply × S) → S → Reply × S
  admitted (stopped reply) run s = (reply, s)
  admitted (passed who) run s = run s

  -- `SetDisabled`
  unfoldable pub set_disabled_handler : Identity → Option ℕ → Result (Option Bool) → S → Reply × S
  unfolding require_privilege held_editable set_account_disabled_from respond_decode_error
      after_write
  set_disabled_handler who id body s =
      admitted (require_privilege a.privileged who) (disabled_at who id body) s

  abbrev write_role : Identity → ℕ → GoString → Result GoString → S → Reply × S
  write_role who id role (err e) s = (auth_error_reply e, s)
  write_role who id role (ok held) s =
      let (answer, t) = set_account_role_from platform store a env who.id id held role s in
      (
        after_write self_role
            (refusal 422 (codes "cannot change your own role") (codes "self_role_refused")) answer,
        t,
      )

  abbrev decoded_role : Identity → ℕ → Result (Option GoString) → S → Reply × S
  decoded_role who id (err e) s = (respond_decode_error e (codes "malformed json"), s)
  decoded_role who id (ok none) s = (required (codes "role is required") (codes "role"), s)
  decoded_role who id (ok (some role)) s =
      let (held, t) = role_change_held platform store a env who.role id role s in
      write_role who id role held t

  abbrev role_at : Identity → Option ℕ → Result (Option GoString) → S → Reply × S
  role_at who none body s = (malformed_id, s)
  role_at who (some id) body s = decoded_role who id body s

  -- `SetRole`
  unfoldable pub set_role_handler : Identity → Option ℕ → Result (Option GoString) → S → Reply × S
  unfolding require_privilege role_change_held set_account_role_from respond_decode_error
      after_write
  set_role_handler who id body s =
      admitted (require_privilege a.privileged who) (role_at who id body) s

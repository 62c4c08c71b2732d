-- ===== src/Authkit/Service.antt =====
-- service.go and identity.go: logging in, login sessions and who they identify.
use gouncer.Base.{
  ℕ, zero, suc, ◌/◌, not, ◌||◌, Option, none, some, List, [], GoString, codes, ◌++◌, if◌then◌else◌,
  ◌==◌, string_eq,
}
use gouncer.Base.Int.{ℤ, pos, negsuc, is_zero, add}
use gouncer.Go.Strings.{trim_space, to_lower}
use gouncer.Core.Errors.{user_not_found, invalid_credentials, is}
use gouncer.Core.Results.{M, Result, ok, err, ◌>>=◌, ◌>>◌, pure, lift, fail}
use gouncer.Core.Roles.{Roles}
use gouncer.Core.Platform.{Platform, Env}
use gouncer.Core.Types.{User}
use gouncer.Core.Tokens.{hash_token, new_session, default_session_duration}
use gouncer.Core.Password.{verify_password}
use gouncer.Authkit.Stores.{AuthStore}

-- `CapabilitySource`, with the `Grantable` that a source may offer besides.
pub record CapabilitySource : Type 0 where
  pub capabilities_of : GoString → List GoString
  pub grantable : Option (GoString → List GoString)

-- `Identity`; a list is nil where it is `none`.
pub record Identity : Type 0 where
  pub id : ℕ
  pub email : GoString
  pub name : GoString
  pub role : GoString
  pub capabilities : Option (List GoString)
  pub grantable : Option (List GoString)

-- What `http.Cookie` holds of a session cookie that varies. The path is `/`, and the cookie is
-- HttpOnly, Secure and SameSite=Lax.
pub record Cookie : Type 0 where
  pub name : GoString
  pub value : GoString
  pub max_age : ℤ

-- `Config`, less the store
pub record Config : Type 0 where
  pub cookie_name : GoString
  pub session_ttl : ℤ
  pub privileged : Roles
  pub capabilities : Option CapabilitySource

-- `Handlers`, less the store
pub record Handlers : Type 0 where
  pub cookie_name : GoString
  pub ttl : ℤ
  pub privileged : Roles
  pub capabilities : Option CapabilitySource

abbrev pub default_cookie_name : GoString
default_cookie_name = codes "__Host-session"

-- `New`
unfoldable pub new_handlers : Config → Handlers
new_handlers cfg = record {
  cookie_name = if cfg.cookie_name == [] then default_cookie_name else cfg.cookie_name;
  ttl = if is_zero cfg.session_ttl then default_session_duration else cfg.session_ttl;
  privileged = cfg.privileged;
  capabilities = cfg.capabilities;
}

-- `sessionCookie`
unfoldable pub session_cookie : GoString → GoString → ℤ → Cookie
session_cookie name token max_age = record { name = name; value = token; max_age = max_age }

-- `int(d.Seconds())`, which rounds towards zero.
abbrev pub seconds : ℤ → ℤ
seconds (pos n) = pos (n / 1000000000)
seconds (negsuc n) = elim ((suc n) / 1000000000) [ zero ↦ pos 0 | suc k ↦ negsuc k ]

abbrev pub dummy_password_hash : GoString
dummy_password_hash =
    codes "$argon2id$v=19$m=19456,t=2,p=1$c3Ra23u60gssamS7GUMIlA$"
    ++ codes "gw1m1IBIwi/ojF3wkAm3P07a5LSQwos4waXky7aLVWM"

-- `identityOf`
unfoldable pub identity_of : Handlers → User → Identity
identity_of h u = record {
  id = u.id;
  email = u.email;
  name = u.name;
  role = u.role;
  capabilities = elim h.capabilities [
    | none ↦ none
    | some source ↦ some (source.capabilities_of u.role)
  ];
  grantable = elim h.capabilities [
    | none ↦ none
    | some source ↦ elim source.grantable [ none ↦ none | some of ↦ some (of u.role) ]
  ];
}

module _ {S : Type 0} (platform : Platform) (store : AuthStore S) (h : Handlers) (env : Env) where
  open store use {user_by_email, create_session, user_by_session, delete_session}

  -- What a login of an unknown address answers. The time that hashing takes is not modelled.
  abbrev after_lookup : GoString → Result User → M S Identity
  after_lookup password (err e) = if is e user_not_found then fail invalid_credentials else fail e
  after_lookup password (ok u) =
      if not (verify_password platform u.password_hash password) || u.disabled
      then fail invalid_credentials
      else pure (identity_of h u)

  -- `Authenticate`
  unfoldable pub authenticate : GoString → GoString → M S Identity
  unfolding verify_password is identity_of
  authenticate email password s =
      let (found, t) = user_by_email (to_lower platform.to_lower (trim_space email)) s in
      after_lookup password found t

  -- `StartSession`
  unfoldable pub start_session : ℕ → M S Cookie
  unfolding new_session session_cookie
  start_session user_id = do
    session ← lift (new_session platform env user_id)
    create_session (record session { expires_at = add session.created_at h.ttl })
    pure (session_cookie h.cookie_name session.token (seconds h.ttl))

  -- `EndSession`
  unfoldable pub end_session : GoString → M S Cookie
  unfolding session_cookie hash_token
  end_session token = do
    (if token == [] then pure tt else delete_session (hash_token platform token))
    pure (session_cookie h.cookie_name [] (negsuc 0))

  -- `SessionIdentity`
  unfoldable pub session_identity : GoString → M S Identity
  unfolding identity_of hash_token
  session_identity token = do
    u ← user_by_session (hash_token platform token) env.now
    pure (identity_of h u)

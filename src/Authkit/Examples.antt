-- ===== src/Authkit/Examples.antt =====
-- The theorems about authkit, applied to one account that is invited, activated and logged in.
use gouncer.Base.{
  some, ap, ◌≡◌, refl, true, false, none, [], ◌∷◌, GoString, arith, codes, string_dec, ℕ_discrete,
}
use gouncer.Base.Dict
use gouncer.Base.Int.{pos}
use gouncer.Core.Results.{ok}
use gouncer.Core.Platform.{Env}
use gouncer.Core.Types.{User, Token, purpose_invite}
use gouncer.Core.Tokens.{new_token}
use gouncer.Core.Password.{phc, hash_password, verify_password}
use gouncer.Go.Utf8.{runes}
use gouncer.Core.Examples.{plain_platform, first_env, digest, random-Writes, key-Writes}
use gouncer.Core.Identity.{new_invited_user, clean_name, set_password}
use gouncer.Go.Strings.{trim_space, contains_func, to_lower}
use gouncer.Go.Unicode.{is_control}
use gouncer.Authkit.Stores.{declared}
use gouncer.Authkit.Instance.{auth_store, invite_store}
use gouncer.Authkit.Invites.{Invites, invite, redeem_invite, hash_of}
use gouncer.Authkit.Service.{
  Identity, Handlers, Cookie, identity_of, authenticate, start_session, session_identity,
}
use gouncer.Authkit.Http.{Reply, Credentials, identity_body, login}
use gouncer.Authkit.Replies.{login_iff}
use gouncer.Authkit.Login.{at, authenticate_iff, start_session-session_identity}
use gouncer.Authkit.Onboarding.{invite-authenticate}
use gouncer.Authkit.SecretFree.{IsSecretFree}
use gouncer.Authkit.Secrets.{Flow, after_all, after_all-IsSecretFree}
use gouncer.Testkit.State.{Store, new_store}
use gouncer.Testkit.Accounts.{create_user, create_first_user, user_by_email}
use gouncer.Testkit.Sessions.{create_session}
use gouncer.Testkit.Tokens.{create_token}
use gouncer.Testkit.Calls.{Call, run}
use gouncer.Testkit.Invariant.{run-IsWellFormed}

abbrev flows : Invites
flows = record { invite_ttl = pos 500; reset_ttl = pos 100; reset_live = 2; roles = none }

abbrev handlers : Handlers
handlers = record { cookie_name = codes "s"; ttl = pos 300; privileged = []; capabilities = none }

abbrev email : GoString
email = codes "Ada@example.org"

abbrev password : GoString
password = codes "correct horse"

abbrev role : GoString
role = codes "member"

abbrev empty : Store
empty = run [] new_store

abbrev secret : GoString
secret = codes "ZW50cm9weQAAAAAAAAAAAAAAAAAAAAAAAAAAAAAAAAA"

abbrev invited_token : Token
invited_token = record {
  token = secret;
  token_hash = digest 32 secret;
  user_id = 7;
  purpose = purpose_invite;
  created_at = 1000;
  expires_at = 1500;
}

invited :
    (invite plain_platform
      (invite_store first_env)
      flows
      first_env
      email
      (codes "Ada")
      role
      empty).0
    ≡ ok invited_token
unfolding invite run new_store ℕ_discrete string_dec declared new_invited_user trim_space
    contains_func is_control to_lower clean_name create_user Dict.any new_token create_token
    Dict.lookup Dict.insert Dict.count
invited = refl

abbrev later_env : Env
later_env = record first_env { now = 1400 }

abbrev hash : GoString
hash = phc (digest 16 (codes "entropy")) (digest 32 password)

hashed : hash_of plain_platform (invite_store later_env) flows later_env password ≡ ok hash
unfolding hash_of set_password runes hash_password
hashed = refl

-- The store once the account is invited.
abbrev site : Store
site =
    (invite plain_platform (invite_store first_env) flows first_env email (codes "Ada") role
      empty).1

quiet :
    (empty.faults.token_err ≡ none)
    × (empty.faults.activate_err ≡ none)
    × (empty.faults.lookup_err ≡ none)
unfolding run new_store
quiet = (refl, refl, refl)

invite-authenticate_example :
    (redeem_invite plain_platform (invite_store later_env) flows later_env secret password site).0
    ≡ ok 7
invite-authenticate_example =
    (invite-authenticate plain_platform flows handlers first_env later_env email (codes "Ada") role
      password hash invited_token empty random-Writes key-Writes (run-IsWellFormed []) quiet.0
      quiet.1 quiet.2 invited (omega arith) hashed).0

empty-IsSecretFree : IsSecretFree empty
unfolding run new_store Dict.lookup
empty-IsSecretFree = record { nodup = tt; secretless = λ hash t found. ground arith }

after_all-IsSecretFree_example : IsSecretFree (
    after_all plain_platform flows
      ((first_env, Flow.inviting email (codes "Ada") role)
        ∷ (later_env, Flow.redeeming secret password)
        ∷ [])
      empty)
after_all-IsSecretFree_example =
    after_all-IsSecretFree plain_platform flows
      ((first_env, Flow.inviting email (codes "Ada") role)
        ∷ (later_env, Flow.redeeming secret password)
        ∷ [])
      empty empty-IsSecretFree

abbrev ada : User
ada = record {
  id = 7;
  email = codes "ada@example.org";
  name = codes "Ada";
  password_hash = hash;
  disabled = false;
  confirmed = true;
  role = role;
  created_at = 1000;
}

abbrev peopled : Store
peopled = run (Call.create_first_user ada ∷ []) new_store

ada-found : (user_by_email (to_lower plain_platform.to_lower (trim_space email)) peopled).0 ≡ ok ada
unfolding run new_store user_by_email create_first_user Dict.find Dict.insert string_dec ℕ_discrete
    to_lower trim_space
ada-found = refl

matches : verify_password plain_platform hash password ≡ true
unfolding verify_password phc string_dec ℕ_discrete
matches = refl

authenticate_iff_example :
    (authenticate plain_platform auth_store handlers first_env email password peopled).0
    ≡ ok (identity_of handlers ada)
authenticate_iff_example =
    ((authenticate_iff plain_platform auth_store handlers first_env email password peopled).0
        (identity_of handlers ada)).1
      (ada, ada-found, matches, refl, refl)

abbrev cookie : Cookie
cookie = record { name = codes "s"; value = secret; max_age = pos 0 }

started : (start_session plain_platform auth_store handlers first_env 7 peopled).0 ≡ ok cookie
unfolding start_session ℕ_discrete create_session run create_first_user new_store
started = refl

start_session-session_identity_example :
    (session_identity plain_platform auth_store handlers
      (at 1299 first_env)
      secret
      (start_session plain_platform auth_store handlers first_env 7 peopled).1).0
    ≡ ok (identity_of handlers ada)
unfolding run create_first_user new_store Dict.lookup Dict.insert ℕ_discrete
start_session-session_identity_example =
    (start_session-session_identity plain_platform handlers first_env 7 cookie ada 1299 peopled refl
      refl tt refl started).0

abbrev credentials : Credentials
credentials = record { email = email; password = password }

abbrev logged_in : Reply
logged_in = record {
  status = 200;
  body = identity_body (identity_of handlers ada);
  cookie = some cookie;
}

known :
    authenticate plain_platform auth_store handlers first_env email password peopled
    ≡ (ok (identity_of handlers ada), peopled)
unfolding authenticate user_by_email create_first_user run new_store Dict.find Dict.insert
    string_dec ℕ_discrete to_lower trim_space verify_password phc
known = refl

replied :
    (login plain_platform auth_store handlers first_env (ok credentials) peopled).0 ≡ logged_in
unfolding login authenticate user_by_email create_first_user run new_store Dict.find Dict.insert
    string_dec ℕ_discrete to_lower trim_space verify_password phc start_session create_session
replied = refl

login_iff_example :
    (body : Credentials) × (who : Identity) × (ok credentials ≡ ok body)
    × ((authenticate plain_platform auth_store handlers first_env body.email body.password
          peopled).0
        ≡ ok who)
    × ((start_session plain_platform auth_store handlers first_env who.id
          (authenticate plain_platform auth_store handlers first_env body.email body.password
            peopled).1).0
        ≡ ok cookie)
    × ((login plain_platform auth_store handlers first_env (ok credentials) peopled).0.status ≡ 200)
    × ((login plain_platform auth_store handlers first_env (ok credentials) peopled).0.body
        ≡ identity_body who)
login_iff_example =
    ((login_iff plain_platform auth_store handlers first_env (ok credentials) peopled).0 cookie).0
      (ap (λ r. r.cookie) replied)

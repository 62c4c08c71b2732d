-- ===== src/Core/Tokens.antt =====
-- session.go and token.go: a session and a single-use token, each with a fresh secret.
use gouncer.Base.{ℕ, not, [], GoString, if◌then◌else◌, ◌==◌, nat_eq, string_eq}
use gouncer.Base.Int.{ℤ, pos, is_positive, add}
use gouncer.Go.Base64.{url_alphabet, encode}
use gouncer.Core.Errors.{nil_user_id, empty_purpose, token_lifetime, wrap, foreign}
use gouncer.Core.Results.{Result, ok, err, or_fail, bind}
use gouncer.Core.Platform.{Platform, Env}
use gouncer.Core.Types.{Session, Token}

abbrev pub session_token_bytes : ℕ
session_token_bytes = 32

abbrev pub token_secret_bytes : ℕ
token_secret_bytes = 32

-- 30 days in nanoseconds
abbrev pub default_session_duration : ℤ
default_session_duration = pos 2592000000000000

module _ (platform : Platform) where
  -- `HashToken`
  unfoldable pub hash_token : GoString → GoString
  hash_token token = platform.sha256 token

  -- `NewSession`
  unfoldable pub new_session : Env → ℕ → Result Session
  unfolding encode hash_token
  new_session env user_id =
      if user_id == 0
      then err nil_user_id
      else bind (or_fail (env.random session_token_bytes) (wrap (foreign 2))) λ raw.
        let token = encode url_alphabet raw in
        ok record {
          token = token;
          token_hash = hash_token token;
          user_id = user_id;
          created_at = env.now;
          expires_at = add env.now default_session_duration;
        }

  -- `NewToken`
  unfoldable pub new_token : Env → ℕ → GoString → ℤ → Result Token
  unfolding encode hash_token is_positive
  new_token env user_id purpose ttl =
      if user_id == 0
      then err nil_user_id
      else if purpose == []
      then err empty_purpose
      else if not (is_positive ttl)
      then err token_lifetime
      else bind (or_fail (env.random token_secret_bytes) (wrap (foreign 3))) λ raw.
        let secret = encode url_alphabet raw in
        ok record {
          token = secret;
          token_hash = hash_token secret;
          user_id = user_id;
          purpose = purpose;
          created_at = env.now;
          expires_at = add env.now ttl;
        }

-- ===== src/Authkit/Invites.antt =====
-- invite.go: inviting an account and resetting a password, over a store.
use gouncer.Base.{
  ℕ, zero, suc, Bool, not, ◌||◌, Option, GoString, [], if◌then◌else◌, ◌==◌, string_eq,
}
use gouncer.Base.Int.{ℤ, pos, negsuc, is_zero}
use gouncer.Go.Strings.{trim_space, to_lower}
use gouncer.Core.Errors.{user_not_found, unknown_role, already_activated}
use gouncer.Core.Results.{M, Result, bind, ok, ◌>>=◌, ◌>>◌, pure, lift, refuse_if}
use gouncer.Core.Platform.{Platform, Env}
use gouncer.Core.Types.{User, Token, purpose_invite, purpose_reset}
use gouncer.Core.Identity.{new_invited_user, set_password}
use gouncer.Core.Tokens.{hash_token, new_token}
use gouncer.Core.Password.{hash_password}
use gouncer.Authkit.Stores.{InviteStore, RoleSource, declared}

-- Seven days and an hour, in nanoseconds.
abbrev pub default_invite_ttl : ℤ
default_invite_ttl = pos 604800000000000

abbrev pub default_reset_ttl : ℤ
default_reset_ttl = pos 3600000000000

-- `InvitesConfig`, less the store
pub record InvitesConfig : Type 0 where
  pub invite_ttl : ℤ
  pub reset_ttl : ℤ
  pub reset_tokens_live : ℤ
  pub roles : Option RoleSource

-- `Invites`, less the store
pub record Invites : Type 0 where
  pub invite_ttl : ℤ
  pub reset_ttl : ℤ
  pub reset_live : ℕ
  pub roles : Option RoleSource

abbrev at_least_one : ℤ → ℕ
at_least_one (pos zero) = 1
at_least_one (pos (suc n)) = suc n
at_least_one (negsuc n) = 1

-- `NewInvites`
unfoldable pub new_invites : InvitesConfig → Invites
new_invites cfg = record {
  invite_ttl = if is_zero cfg.invite_ttl then default_invite_ttl else cfg.invite_ttl;
  reset_ttl = if is_zero cfg.reset_ttl then default_reset_ttl else cfg.reset_ttl;
  reset_live = at_least_one cfg.reset_tokens_live;
  roles = cfg.roles;
}

-- The zero `gouncer.User`
abbrev pub zero_user : User
zero_user = record {
  id = 0;
  email = [];
  name = [];
  password_hash = [];
  disabled = Bool.false;
  confirmed = Bool.false;
  role = [];
  created_at = 0;
}

module _ {S : Type 0} (platform : Platform) (store : InviteStore S) (i : Invites) (env : Env) where
  open store use {base, create_token, replace_token, activate_by_token, reset_by_token}
  open base use {create_user, user_by_email}

  -- `createWithin`
  unfoldable pub create_within : ℕ → Token → M S (Unit {0})
  create_within live t = create_token t live

  -- `issue`
  unfoldable pub issue : ℕ → GoString → ℤ → (Token → M S (Unit {0})) → M S Token
  issue user_id purpose ttl write = do
    t ← lift (new_token platform env user_id purpose ttl)
    write (record t { token = [] })
    pure t

  -- `hashOf`
  unfoldable pub hash_of : GoString → Result GoString
  hash_of password =
      bind (set_password (hash_password platform env) zero_user password) λ u. ok u.password_hash

  -- `Invite`
  unfoldable pub invite : GoString → GoString → GoString → M S Token
  unfolding create_within issue
  invite email name role = do
    refuse_if (not (declared i.roles role)) unknown_role
    u ← lift (new_invited_user platform env email name)
    create_user (record u { role = role })
    issue u.id purpose_invite i.invite_ttl (create_within 1)

  abbrev pub normalized : GoString → GoString
  normalized email = to_lower platform.to_lower (trim_space email)

  -- `ResendInvite`
  unfoldable pub resend_invite : GoString → M S Token
  unfolding issue
  resend_invite email = do
    u ← user_by_email (normalized email)
    refuse_if u.disabled user_not_found
    refuse_if (u.confirmed || not (u.password_hash == [])) already_activated
    issue u.id purpose_invite i.invite_ttl replace_token

  -- `RedeemInvite`
  unfoldable pub redeem_invite : GoString → GoString → M S ℕ
  unfolding hash_of
  redeem_invite token password = do
    hash ← lift (hash_of password)
    activate_by_token (hash_token platform token) env.now hash

  -- `RequestReset`
  unfoldable pub request_reset : GoString → M S Token
  unfolding create_within issue
  request_reset email = do
    u ← user_by_email (normalized email)
    refuse_if (u.disabled || not u.confirmed) user_not_found
    issue u.id purpose_reset i.reset_ttl (create_within i.reset_live)

  -- `RedeemReset`
  unfoldable pub redeem_reset : GoString → GoString → M S ℕ
  unfolding hash_of
  redeem_reset token password = do
    hash ← lift (hash_of password)
    reset_by_token (hash_token platform token) env.now hash

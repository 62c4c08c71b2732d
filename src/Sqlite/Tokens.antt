-- ===== src/Sqlite/Tokens.antt =====
-- invite.go of authkit/sqlite: single-use tokens. `now` is what `time.Now().UTC()` reads where a method
-- reads it.
use gouncer.Base.{ℕ, suc, true, false, List, [], ◌∷◌, GoString, ◌==◌, string_eq, leb, if◌then◌else◌}
use gouncer.Core.Errors.{user_not_found, token_exists, token_not_found}
use gouncer.Core.Results.{M, ◌>>=◌, ◌>>◌, pure, lift, or_fail, refuse_if}
use gouncer.Core.Types.{Token, purpose_invite, purpose_reset}
use gouncer.Sqlite.Rows.{Driver, AuthToken, Database}
use gouncer.Sqlite.UserQueries
use gouncer.Sqlite.TokenQueries
use gouncer.Sqlite.Users.{in_tx, wrote}

module _ (driver : Driver) where
  open driver use {to_column}

  -- `insertToken`
  unfoldable pub insert_token : Token → M Database (Unit {0})
  unfolding TokenQueries.create_token
  insert_token t = TokenQueries.create_token record {
    token_hash = t.token_hash;
    user_id = t.user_id;
    purpose = t.purpose;
    created_at = to_column t.created_at;
    expires_at = to_column t.expires_at;
  }

  -- `holdEnabled`
  unfoldable pub hold_enabled : ℕ → M Database ℕ
  unfolding UserQueries.lock_enabled_user
  hold_enabled id = do held ← UserQueries.lock_enabled_user id; lift (or_fail held user_not_found)

  -- `holdReplaceable`
  unfoldable pub hold_replaceable : ℕ → GoString → M Database ℕ
  unfolding hold_enabled UserQueries.lock_unactivated_user
  hold_replaceable id purpose = elim (purpose == purpose_invite) [
    | false ↦ hold_enabled id
    | true ↦ (do held ← UserQueries.lock_unactivated_user id; lift (or_fail held user_not_found))
  ]

  abbrev pub create_token_body : ℕ → Token → ℕ → M Database (Unit {0})
  create_token_body now t live = do
    hold_enabled t.user_id
    standing ← TokenQueries.count_live_tokens t.user_id t.purpose (to_column now)
    refuse_if (leb live standing) token_exists
    insert_token t

  -- `CreateToken`
  unfoldable pub create_token : ℕ → Token → ℕ → M Database (Unit {0})
  unfolding in_tx hold_enabled TokenQueries.count_live_tokens insert_token
  create_token now t live = in_tx driver (create_token_body now t live)

  abbrev pub replace_token_body : Token → M Database (Unit {0})
  replace_token_body t = do
    hold_replaceable t.user_id t.purpose
    TokenQueries.delete_user_tokens_for_purpose t.user_id t.purpose
    insert_token t

  -- `ReplaceToken`
  unfoldable pub replace_token : Token → M Database (Unit {0})
  unfolding in_tx hold_replaceable TokenQueries.delete_user_tokens_for_purpose insert_token
  replace_token t = in_tx driver (replace_token_body t)

  abbrev pub redeem_body : GoString → GoString → ℕ → (ℕ → M Database ℕ) → M Database ℕ
  redeem_body token_hash purpose now write = do
    found ← TokenQueries.find_live_token token_hash purpose (to_column now)
    held ← lift (or_fail found token_not_found)
    hold_enabled held
    TokenQueries.delete_token token_hash
    count ← write held
    wrote driver count
    pure held

  -- `redeem`
  unfoldable pub redeem : GoString → GoString → ℕ → (ℕ → M Database ℕ) → M Database ℕ
  unfolding in_tx TokenQueries.find_live_token hold_enabled TokenQueries.delete_token
  redeem token_hash purpose now write = in_tx driver (redeem_body token_hash purpose now write)

  -- `ActivateByToken`
  unfoldable pub activate_by_token : GoString → ℕ → GoString → M Database ℕ
  unfolding redeem UserQueries.activate_user
  activate_by_token token_hash now password_hash =
      redeem token_hash purpose_invite now (UserQueries.activate_user password_hash)

  -- The write of `ResetByToken`
  unfoldable pub reset_write : GoString → ℕ → M Database ℕ
  unfolding UserQueries.set_user_password TokenQueries.delete_user_sessions
      TokenQueries.delete_user_tokens_for_purpose
  reset_write password_hash id = do
    count ← UserQueries.set_user_password password_hash id
    TokenQueries.delete_user_sessions id
    TokenQueries.delete_user_tokens_for_purpose id purpose_reset
    pure count

  -- `ResetByToken`
  unfoldable pub reset_by_token : GoString → ℕ → GoString → M Database ℕ
  unfolding redeem reset_write
  reset_by_token token_hash now password_hash =
      redeem token_hash purpose_reset now (reset_write password_hash)

  -- The accounts of the expired invites, in the order of the rows.
  unfoldable pub stranded : List AuthToken → List ℕ
  stranded [] = []
  stranded (k ∷ ks) =
      let rest = stranded ks in if k.purpose == purpose_invite then k.user_id ∷ rest else rest

  -- `sweepStranded`, once the unconfirmed accounts are read.
  unfoldable pub sweep_held : List ℕ → ℕ → M Database (Unit {0})
  unfolding UserQueries.delete_unconfirmed_accounts
  sweep_held [] now = pure tt
  sweep_held (id ∷ ids) now =
      UserQueries.delete_unconfirmed_accounts (id ∷ ids) purpose_invite (to_column now)

  -- `sweepStranded`
  unfoldable pub sweep_stranded : List ℕ → ℕ → M Database (Unit {0})
  unfolding UserQueries.lock_unconfirmed_accounts sweep_held
  sweep_stranded [] now = pure tt
  sweep_stranded (id ∷ ids) now = do
    held ← UserQueries.lock_unconfirmed_accounts (id ∷ ids)
    sweep_held held now

  abbrev pub count_rows : List AuthToken → ℕ
  count_rows [] = 0
  count_rows (_ ∷ ks) = suc (count_rows ks)

  abbrev pub delete_expired_tokens_body : ℕ → M Database ℕ
  delete_expired_tokens_body now = do
    expired ← TokenQueries.expired_tokens (to_column now)
    sweep_stranded (stranded expired) now
    TokenQueries.delete_expired_tokens (to_column now)
    pure (count_rows expired)

  -- `DeleteExpiredTokens`
  unfoldable pub delete_expired_tokens : ℕ → M Database ℕ
  unfolding in_tx TokenQueries.expired_tokens stranded sweep_stranded
      TokenQueries.delete_expired_tokens
  delete_expired_tokens now = in_tx driver (delete_expired_tokens_body now)

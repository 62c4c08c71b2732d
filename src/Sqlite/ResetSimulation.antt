-- ===== src/Sqlite/ResetSimulation.antt =====
-- `ResetByToken`, on the tables and on the store of testkit.
use gouncer.Base.{
  ℕ, ◌≡◌, refl, ap, ◌∙◌, inl, inr, not, none, GoString, arith, ◌==◌, nat_eq, string_eq,
}
use gouncer.Base.Dict
use gouncer.Core.Errors.{user_not_found, token_not_found}
use gouncer.Core.Types.{User, purpose_reset}
use gouncer.Sqlite.Rows.{Driver, AuthUser, Tables, statement, update_where}
use gouncer.Sqlite.UserQueries
use gouncer.Sqlite.UserQueries.{has_id, is_enabled}
use gouncer.Sqlite.TokenQueries
use gouncer.Sqlite.TokenQueries.{sessions_where, tokens_where, for_purpose}
use gouncer.Sqlite.Users.{stored_user}
use gouncer.Sqlite.Tokens
use gouncer.Sqlite.Tokens.{redeem_body}
use gouncer.Sqlite.Simulation.{calm, Simulates, Agrees, keep}
use gouncer.Sqlite.UsersSimulation.{tokens-Simulates, sessions-Simulates}
use gouncer.Sqlite.RedeemSimulation.{
  no_token, useless, no_account, disabled, held, redeemed, with_hash, users_are, written-Simulates,
  count-written, delete_where_comm,
}
use gouncer.Sqlite.Transaction.{
  BodyAgrees, refused, answered, in_tx-Agrees, user_not_found-known, token_not_found-known,
}
use gouncer.Testkit.State.{Store}
use gouncer.Testkit.Accounts.{put_user}
use gouncer.Testkit.Guard.{session_of}
use gouncer.Testkit.Tokens as TestTokens
use gouncer.Testkit.Tokens.{spend, drop_sessions, drop_tokens, token_for}
use gouncer.Testkit.WellFormed.{IsWellFormed}

module _ (d : Driver) (t : Tables) (s : Store) (sim : Simulates d t s) (wf : IsWellFormed s) where
  -- The tables of a reset.
  abbrev after_reset : GoString → ℕ → (AuthUser → AuthUser) → Tables
  after_reset hash id g = tokens_where (for_purpose id purpose_reset) (
      sessions_where (λ x. x.user_id == id)
        (users_are (update_where (is_enabled id) g t.users) (tokens_where (with_hash hash) t)))

  reset-Simulates :
      (hash : GoString) (id : ℕ) (g : AuthUser → AuthUser) (u : User)
      → Simulates d (users_are (update_where (is_enabled id) g t.users) t) (put_user id u s)
      → Simulates d (after_reset hash id g) (
          spend hash (
            drop_tokens
              (token_for id purpose_reset)
              (drop_sessions (session_of id) (put_user id u s))))
  unfolding Dict.delete
  reset-Simulates hash id g u wrote =
      let closed =
        sessions-Simulates d _ _ wrote (session_of id) (λ x. x.user_id == id) (λ x. refl) in
      let dropped =
        tokens-Simulates d _ _ closed (token_for id purpose_reset) (for_purpose id purpose_reset)
          (λ x. refl) in
      let spent =
        tokens-Simulates d _ _ dropped (λ j _. hash == j) (with_hash hash) (λ x. ground arith) in
      record {
        users = spent.users;
        sessions = spent.sessions;
        tokens =
            rw (delete_where_comm (for_purpose id purpose_reset) (with_hash hash) t.tokens)
              spent.tokens;
        faultless = spent.faultless;
      }

  reset-BodyAgrees :
      (hash : GoString) (now : ℕ) (password_hash : GoString)
      → BodyAgrees d t
          (redeem_body d hash purpose_reset now (Tokens.reset_write d password_hash) (calm t))
          (TestTokens.reset_by_token hash (keep d now) password_hash s)
  unfolding TestTokens.reset_by_token Tokens.reset_write UserQueries.set_user_password
      TokenQueries.delete_user_sessions TokenQueries.delete_user_tokens_for_purpose statement
  reset-BodyAgrees hash now password_hash =
      let quiet : s.faults.token_err ≡ none = rw sim.faultless refl in
      let calm_write : s.faults.reset_err ≡ none = rw sim.faultless refl in
      let g : AuthUser → AuthUser = λ u. record u { password_hash = password_hash } in
      elim (redeemed d t s sim wf hash purpose_reset now (Tokens.reset_write d password_hash)) [
        | no_token ran absent ↦
            refused token_not_found t s token_not_found-known ran
              (rw quiet (rw calm_write (rw absent refl))) sim
        | useless k ran present bad ↦
            refused token_not_found t s token_not_found-known ran
              (rw quiet (rw calm_write (rw present (rw bad refl)))) sim
        | no_account k ran present good absent ↦
            refused user_not_found t s user_not_found-known ran
              (rw quiet (rw calm_write (rw present (rw good (rw absent refl))))) sim
        | disabled k r ran present good account off ↦
            refused user_not_found t s user_not_found-known ran
              (rw quiet (rw calm_write (rw present (rw good (rw account (rw off refl)))))) sim
        | held k r ran present good account found on ↦
            elim (count-written d t s sim wf k.user_id (λ u. not u.disabled) r found) [
              | inl (fails, zero_rows) ↦ absurd (ground arith)
              | inr (n, passes, rows) ↦
                  let u = record (stored_user d r) { password_hash = password_hash } in
                  let wrote =
                    written-Simulates d t s sim wf k.user_id (λ u. not u.disabled) g r u found
                      passes (λ x. refl)
                      (λ x e. ap (λ (v : User). record v { password_hash = password_hash }) e) in
                  answered k.user_id (after_reset hash k.user_id g)
                    (spend hash (
                      drop_tokens (token_for k.user_id purpose_reset)
                        (drop_sessions (session_of k.user_id) (put_user k.user_id u s))))
                    (ran ∙ rw rows refl)
                    (rw quiet (rw calm_write (rw present (rw good (rw account (rw on refl))))))
                    (reset-Simulates hash k.user_id g u wrote)
            ]
      ]

  pub reset_by_token-Agrees :
      (hash : GoString) (now : ℕ) (password_hash : GoString)
      → Agrees d
          (Tokens.reset_by_token d hash now password_hash (calm t))
          (TestTokens.reset_by_token hash (keep d now) password_hash s)
  unfolding Tokens.reset_by_token Tokens.redeem
  reset_by_token-Agrees hash now password_hash =
      in_tx-Agrees d t (redeem_body d hash purpose_reset now (Tokens.reset_write d password_hash)) _
        (reset-BodyAgrees hash now password_hash)

-- ===== src/Sqlite/RedeemSimulation.antt =====
-- Redeeming a single-use token, on the tables and on the store of testkit.
use gouncer.Base.{
  ℕ, suc, ◌≡◌, refl, ap, ◌∙◌, ◌⊎◌, inl, inr, Bool, true, false, not, ◌&&◌, none, some, List, [],
  ◌∷◌, GoString, arith, ◌==◌, ltb, nat_eq, string_eq, Bool-cases, Option-cases,
}
use gouncer.Base.Dict
use gouncer.Core.Errors.{user_not_found, token_not_found}
use gouncer.Core.Results.{M, err, pure, ◌>>=◌, ◌>>◌}
use gouncer.Core.Types.{User, purpose_invite}
use gouncer.Sqlite.Rows.{
  Driver, AuthUser, AuthToken, Tables, Database, statement, delete_where, find_where, update_where,
  count_where,
}
use gouncer.Sqlite.UserQueries
use gouncer.Sqlite.UserQueries.{has_id, is_enabled, is_unactivated}
use gouncer.Sqlite.TokenQueries
use gouncer.Sqlite.TokenQueries.{sessions_where, tokens_where, for_purpose, is_usable}
use gouncer.Sqlite.Users.{stored_user, wrote}
use gouncer.Sqlite.Tokens
use gouncer.Sqlite.Tokens.{redeem_body}
use gouncer.Sqlite.Keyed.{when, find-narrow, update-narrow}
use gouncer.Sqlite.View.{count-find}
use gouncer.Sqlite.Simulation.{calm, stored_token, Simulates, Agrees, keep}
use gouncer.Sqlite.UsersSimulation.{lookup-row, tokens-Simulates, users-Simulates}
use gouncer.Sqlite.RolesSimulation.{account_cases, find-user, users-nodup}
use gouncer.Sqlite.TokensSimulation.{lookup-token, hold_enabled-calm}
use gouncer.Sqlite.Transaction.{
  BodyAgrees, refused, answered, in_tx-Agrees, user_not_found-known, token_not_found-known,
}
use gouncer.Testkit.State.{Store}
use gouncer.Testkit.Accounts.{put_user}
use gouncer.Testkit.Tokens as TestTokens
use gouncer.Testkit.Tokens.{usable, activated, spend, drop_sessions, drop_tokens, token_for}
use gouncer.Testkit.WellFormed.{IsWellFormed}

abbrev pub with_hash : GoString → AuthToken → Bool
with_hash hash k = k.token_hash == hash

-- How a redemption ends: without a token, with one of no use, without an account, with one that is
-- disabled, or in the write of the two methods that redeem.
pub data Redeemed (d : Driver) (t : Tables) (s : Store) (hash purpose : GoString) (now : ℕ)
    (write : ℕ → M Database ℕ) : Type 0 where
  no_token :
      redeem_body d hash purpose now write (calm t) ≡ (err token_not_found, calm t)
      → Dict.lookup hash s.tokens ≡ none
      → Redeemed d t s hash purpose now write
  useless :
      (k : AuthToken)
      → redeem_body d hash purpose now write (calm t) ≡ (err token_not_found, calm t)
      → Dict.lookup hash s.tokens ≡ some (stored_token d k)
      → usable purpose (keep d now) (stored_token d k) ≡ false
      → Redeemed d t s hash purpose now write
  no_account :
      (k : AuthToken)
      → redeem_body d hash purpose now write (calm t) ≡ (err user_not_found, calm t)
      → Dict.lookup hash s.tokens ≡ some (stored_token d k)
      → usable purpose (keep d now) (stored_token d k) ≡ true
      → Dict.lookup k.user_id s.users ≡ none
      → Redeemed d t s hash purpose now write
  disabled :
      (k : AuthToken) (r : AuthUser)
      → redeem_body d hash purpose now write (calm t) ≡ (err user_not_found, calm t)
      → Dict.lookup hash s.tokens ≡ some (stored_token d k)
      → usable purpose (keep d now) (stored_token d k) ≡ true
      → Dict.lookup k.user_id s.users ≡ some (stored_user d r)
      → r.disabled ≡ true
      → Redeemed d t s hash purpose now write
  held :
      (k : AuthToken) (r : AuthUser)
      → redeem_body d hash purpose now write (calm t)
        ≡ (write k.user_id >>= λ count. wrote d count >> pure k.user_id)
            (calm (tokens_where (with_hash hash) t))
      → Dict.lookup hash s.tokens ≡ some (stored_token d k)
      → usable purpose (keep d now) (stored_token d k) ≡ true
      → Dict.lookup k.user_id s.users ≡ some (stored_user d r)
      → find_where (has_id k.user_id) t.users ≡ some r
      → r.disabled ≡ false
      → Redeemed d t s hash purpose now write

module _ (d : Driver) (t : Tables) (s : Store) (sim : Simulates d t s) (wf : IsWellFormed s)
    (hash purpose : GoString) (now : ℕ) (write : ℕ → M Database ℕ) where
  find_live-row :
      find_where (is_usable hash purpose (d.to_column now)) t.tokens
      ≡ when
          (λ k. k.purpose == purpose && ltb (d.to_column now) k.expires_at)
          (find_where (with_hash hash) t.tokens)
  find_live-row =
      find-narrow (λ (k : AuthToken). k.token_hash) (stored_token d) hash (with_hash hash)
        (λ k. k.purpose == purpose && ltb (d.to_column now) k.expires_at) t.tokens
        (λ k. ground arith) (rw sim.tokens at wf.tokens_keyed.nodup)

  pub redeemed : Redeemed d t s hash purpose now write
  unfolding TokenQueries.find_live_token TokenQueries.delete_token statement
  redeemed =
      let c = d.to_column now in
      let live = find_live-row in
      let entry = lookup-token d t s sim hash in
      elim (Option-cases (find_where (with_hash hash) t.tokens)) [
        | inl missing ↦ no_token (rw live (rw missing refl)) (entry ∙ rw missing refl)
        | inr (k, found) ↦
            let present : Dict.lookup hash s.tokens ≡ some (stored_token d k) =
              entry ∙ rw found refl in
            let same : usable purpose (keep d now) (stored_token d k)
                ≡ (k.purpose == purpose && ltb c k.expires_at) =
              rw (d.ordered c k.expires_at) refl in
            elim (Bool-cases (k.purpose == purpose && ltb c k.expires_at)) [
              | inl good ↦ elim (account_cases d t s sim wf k.user_id) [
                | inl (nobody, none_there, absent) ↦
                    no_account k
                      (rw live (
                        rw found (
                          rw good
                            (rw (hold_enabled-calm d t s sim wf k.user_id none nobody) refl))))
                      present (same ∙ good) absent
                | inr (r, n, somebody, rows, account) ↦
                    let lock = hold_enabled-calm d t s sim wf k.user_id (some r) somebody in
                    elim (Bool-cases r.disabled) [
                      | inl off ↦
                          disabled k r (rw live (rw found (rw good (rw lock (rw off refl)))))
                            present (same ∙ good) account off
                      | inr on ↦
                          held k r (rw live (rw found (rw good (rw lock (rw on refl))))) present
                            (same ∙ good) account somebody on
                    ]
              ]
              | inr bad ↦ useless k (rw live (rw found (rw bad refl))) present (same ∙ bad)
            ]
      ]

-- Deletes come in either order.
pub delete_where_comm :
    {A : Type 0} (p q : A → Bool) (rs : List A)
    → delete_where p (delete_where q rs) ≡ delete_where q (delete_where p rs)
unfolding delete_where
delete_where_comm p q [] = refl
delete_where_comm p q (r ∷ rs) = ground (arith, delete_where_comm p q rs)

abbrev pub users_are : List AuthUser → Tables → Tables
users_are l t = record t { users = l }

module _ (d : Driver) (t : Tables) (s : Store) (sim : Simulates d t s) (wf : IsWellFormed s) where
  -- An update whose test beside the id holds of the row writes that row.
  pub written-Simulates :
      (id : ℕ) (q : AuthUser → Bool) (g : AuthUser → AuthUser) (r : AuthUser) (w : User)
      → find_where (has_id id) t.users ≡ some r
      → q r ≡ true
      → ((r : AuthUser) → (g r).id ≡ r.id)
      → ((x : AuthUser) → stored_user d x ≡ stored_user d r → stored_user d (g x) ≡ w)
      → Simulates d
          (users_are (update_where (λ u. has_id id u && q u) g t.users) t)
          (put_user id w s)
  written-Simulates id q g r w found passes keyed valued =
      let narrow =
        update-narrow (λ (r : AuthUser). r.id) (stored_user d) id (has_id id) q g r t.users
          (λ r. ground arith) (users-nodup d t s sim wf) found passes in
      let present : Dict.lookup id s.users ≡ some (stored_user d r) =
        lookup-row d t s sim id ∙ rw found refl in
      rw narrow (users-Simulates d t s sim id (stored_user d r) w g wf present keyed valued)

  -- How many rows such an update counts.
  pub count-written :
      (id : ℕ) (q : AuthUser → Bool) (r : AuthUser)
      → find_where (has_id id) t.users ≡ some r
      → ((q r ≡ false) × (count_where (λ u. has_id id u && q u) t.users ≡ 0))
        ⊎ ((n : ℕ) × (q r ≡ true) × (count_where (λ u. has_id id u && q u) t.users ≡ suc n))
  count-written id q r found =
      let one = find-user d t s sim wf id q in
      elim (count-find (λ u. has_id id u && q u) t.users) [
        | inl (missing, zero_rows) ↦ inl (ground arith, zero_rows)
        | inr (x, n, hit, rows) ↦ inr (n, ground arith, rows)
      ]

  activate-BodyAgrees :
      (hash : GoString) (now : ℕ) (password_hash : GoString)
      → BodyAgrees d t
          (redeem_body d hash purpose_invite now (UserQueries.activate_user password_hash) (calm t))
          (TestTokens.activate_by_token hash (keep d now) password_hash s)
  unfolding TestTokens.activate_by_token UserQueries.activate_user statement Dict.delete
  activate-BodyAgrees hash now password_hash =
      let quiet : s.faults.token_err ≡ none = rw sim.faultless refl in
      let calm_write : s.faults.activate_err ≡ none = rw sim.faultless refl in
      let g : AuthUser → AuthUser =
        λ u. record u { password_hash = password_hash; confirmed = true } in
      let q : AuthUser → Bool = λ u. not u.disabled && not u.confirmed in
      elim (redeemed d t s sim wf hash purpose_invite now
        (UserQueries.activate_user password_hash)) [
          | no_token ran absent ↦
              refused token_not_found t s token_not_found-known ran
                (rw quiet (rw calm_write (rw absent refl))) sim
          | useless k ran present bad ↦
              refused token_not_found t s token_not_found-known ran
                (rw quiet (rw calm_write (rw present (rw bad refl)))) sim
          | no_account k ran present good absent ↦
              refused user_not_found t s user_not_found-known ran
                (rw quiet (rw calm_write (rw present (rw good (rw absent refl))))) sim
          | disabled k r ran present good account off ↦
              refused user_not_found t s user_not_found-known ran
                (rw quiet (rw calm_write (rw present (rw good (rw account (rw off refl)))))) sim
          | held k r ran present good account found on ↦ elim (count-written k.user_id q r found) [
            | inl (fails, zero_rows) ↦
                let confirmed : r.confirmed ≡ true = ground arith in
                let left =
                  users_are (update_where (is_unactivated k.user_id) g t.users)
                    (tokens_where (with_hash hash) t) in
                refused user_not_found left s user_not_found-known (ran ∙ rw zero_rows refl)
                  (rw quiet
                    (rw calm_write (rw present (rw good (rw account (rw on (rw confirmed refl)))))))
                  sim
            | inr (n, passes, rows) ↦
                let unconfirmed : r.confirmed ≡ false = ground arith in
                let u = activated password_hash (stored_user d r) in
                let left =
                  users_are (update_where (is_unactivated k.user_id) g t.users)
                    (tokens_where (with_hash hash) t) in
                let wrote =
                  written-Simulates k.user_id q g r u found passes (λ x. refl)
                    (λ x e. ap (activated password_hash) e) in
                answered k.user_id left (spend hash (put_user k.user_id u s)) (ran ∙ rw rows refl)
                  (rw quiet (
                    rw calm_write
                      (rw present (rw good (rw account (rw on (rw unconfirmed refl)))))))
                  (tokens-Simulates d _ _ wrote (λ j _. hash == j) (with_hash hash)
                    (λ x. ground arith))
          ]
        ]

  pub activate_by_token-Agrees :
      (hash : GoString) (now : ℕ) (password_hash : GoString)
      → Agrees d
          (Tokens.activate_by_token d hash now password_hash (calm t))
          (TestTokens.activate_by_token hash (keep d now) password_hash s)
  unfolding Tokens.activate_by_token Tokens.redeem
  activate_by_token-Agrees hash now password_hash =
      in_tx-Agrees d t
        (redeem_body d hash purpose_invite now (UserQueries.activate_user password_hash)) _
        (activate-BodyAgrees hash now password_hash)

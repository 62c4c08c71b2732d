-- ===== src/Sqlite/SweepSimulation.antt =====
-- `DeleteExpiredTokens`, on the tables and on the store of testkit.
use gouncer.Base.{
  ℕ, ◌≡◌, refl, ap, ◌∙◌, Bool, none, some, List, [], ◌∷◌, arith, nat_eq, string_eq, Option-cases,
  inl, inr,
}
use gouncer.Base.Dict
use gouncer.Core.Results.{ok}
use gouncer.Core.Types.{purpose_invite}
use gouncer.Sqlite.Rows.{
  Driver, AuthUser, AuthSession, AuthToken, Tables, statement, count_where, find_where,
  select_where, exists_where,
}
use gouncer.Sqlite.UserQueries.{has_id, live_token}
use gouncer.Sqlite.TokenQueries
use gouncer.Sqlite.TokenQueries.{tokens_where, is_expired}
use gouncer.Sqlite.Users.{stored_user}
use gouncer.Sqlite.Tokens
use gouncer.Sqlite.Tokens.{count_rows}
use gouncer.Sqlite.View.{index, count-index, any-index, delete_func-index, find_where-holds}
use gouncer.Sqlite.Simulation.{calm, stored_session, stored_token, Simulates, Agrees, keep}
use gouncer.Sqlite.UsersSimulation.{lookup-row, tokens-Simulates}
use gouncer.Sqlite.RolesSimulation.{users-nodup}
use gouncer.Sqlite.RedeemSimulation.{delete_where_comm}
use gouncer.Sqlite.Sweeping.{remove_rows, is_swept_id, sweep_stranded-removes}
use gouncer.Sqlite.Transaction.{answered, in_tx-Agrees}
use gouncer.Testkit.State.{Store}
use gouncer.Testkit.Tokens.{live_for}
use gouncer.Testkit.Sweep
use gouncer.Testkit.Sweep.{token_expired, holds_live_invite}
use gouncer.Testkit.Removal.{
  remove_all, remove_all-ext, is_dropped, any-delete_func, drop_all-removes,
}
use gouncer.Testkit.WellFormed.{IsWellFormed}

count_rows-select :
    (d : Driver) (p : AuthToken → Bool) (ks : List AuthToken)
    → count_rows d (select_where p ks) ≡ count_where p ks
unfolding select_where count_where
count_rows-select d p [] = refl
count_rows-select d p (k ∷ ks) = ground (arith, count_rows-select d p ks)

remove_rows-Simulates :
    (d : Driver) (t : Tables) (s : Store) (r : ℕ → Bool)
    → Simulates d t s
    → Simulates d (remove_rows r t) (remove_all r s)
remove_rows-Simulates d t s r sim = record {
  users = rw sim.users (
      delete_func-index (λ (u : AuthUser). u.id) (stored_user d) (λ j _. r j) (λ u. r u.id) t.users
        (λ u. refl));
  sessions = rw sim.sessions (
      delete_func-index (λ (x : AuthSession). x.token_hash) (stored_session d) (λ _ x. r x.user_id)
        (λ x. r x.user_id) t.sessions (λ x. refl));
  tokens = rw sim.tokens (
      delete_func-index (λ (k : AuthToken). k.token_hash) (stored_token d) (λ _ k. r k.user_id)
        (λ k. r k.user_id) t.tokens (λ k. refl));
  faultless = sim.faultless;
}

module _ (d : Driver) (now : ℕ) where
  stranded-index :
      (ks : List AuthToken)
      → Sweep.stranded (keep d now) (index (λ (k : AuthToken). k.token_hash) (stored_token d) ks)
        ≡ Tokens.stranded d (select_where (is_expired (d.to_column now)) ks)
  unfolding Sweep.stranded Tokens.stranded select_where
  stranded-index [] = refl
  stranded-index (k ∷ ks) =
      rw (d.ordered (d.to_column now) k.expires_at) ground (arith, stranded-index ks)

module _ (d : Driver) (t : Tables) (s : Store) (sim : Simulates d t s) (wf : IsWellFormed s)
    (now : ℕ) where
  -- The store once the expired tokens are gone.
  abbrev purged : Store
  purged = record s { tokens = Dict.delete_func (token_expired (keep d now)) s.tokens }

  expired-alike :
      (k : AuthToken)
      → token_expired (keep d now) k.token_hash (stored_token d k) ≡ is_expired (d.to_column now) k
  expired-alike k = rw (d.ordered (d.to_column now) k.expires_at) refl

  holds_live-purged :
      (j : ℕ)
      → holds_live_invite j (keep d now) purged
        ≡ exists_where (live_token j purpose_invite (d.to_column now)) t.tokens
  unfolding holds_live_invite
  holds_live-purged j =
      any-delete_func (live_for j purpose_invite (keep d now)) (token_expired (keep d now)) s.tokens
        (λ k v live. ground arith)
      ∙ rw sim.tokens (
          any-index (λ (k : AuthToken). k.token_hash) (stored_token d)
            (live_for j purpose_invite (keep d now)) (live_token j purpose_invite (d.to_column now))
            t.tokens (λ k. rw (d.ordered (d.to_column now) k.expires_at) ground arith))

  dropped-swept :
      (ids : List ℕ) (j : ℕ)
      → is_dropped ids (keep d now) purged j ≡ is_swept_id ids (d.to_column now) t j
  dropped-swept ids j = elim (Option-cases (find_where (has_id j) t.users)) [
    | inl missing ↦
        let absent : Dict.lookup j s.users ≡ none = lookup-row d t s sim j ∙ rw missing refl in
        rw missing (rw absent ground arith)
    | inr (r, found) ↦
        let present : Dict.lookup j s.users ≡ some (stored_user d r) =
          lookup-row d t s sim j ∙ rw found refl in
        let at_id : r.id ≡ j =
          let h = find_where-holds (has_id j) t.users r found in ground arith in
        rw found (rw present (rw (holds_live-purged j) (rw at_id ground arith)))
  ]

  expired_ids : List ℕ
  expired_ids = Tokens.stranded d (select_where (is_expired (d.to_column now)) t.tokens)

  abbrev swept_ids : ℕ → Bool
  swept_ids = is_swept_id expired_ids (d.to_column now) t

  abbrev swept_tables : Tables
  swept_tables = tokens_where (is_expired (d.to_column now)) (remove_rows swept_ids t)

  swept-Simulates : Simulates d swept_tables (remove_all swept_ids purged)
  swept-Simulates =
      let c = d.to_column now in
      let cleared =
        tokens-Simulates d t s sim (token_expired (keep d now)) (is_expired c) expired-alike in
      let removed =
        remove_rows-Simulates d (tokens_where (is_expired c) t) purged swept_ids cleared in
      record {
        users = removed.users;
        sessions = removed.sessions;
        tokens =
            removed.tokens
            ∙ ap (λ ks. index (λ (k : AuthToken). k.token_hash) (stored_token d) ks)
                (delete_where_comm (λ k. swept_ids k.user_id) (is_expired c) t.tokens);
        faultless = removed.faultless;
      }

  drop_all-swept :
      Sweep.drop_all (Sweep.stranded (keep d now) s.tokens) (keep d now) purged
      ≡ remove_all swept_ids purged
  unfolding expired_ids
  drop_all-swept =
      let named : Sweep.stranded (keep d now) s.tokens ≡ expired_ids =
        rw sim.tokens (stranded-index d now t.tokens) in
      drop_all-removes (Sweep.stranded (keep d now) s.tokens) (keep d now) purged
      ∙ remove_all-ext (is_dropped (Sweep.stranded (keep d now) s.tokens) (keep d now) purged)
          swept_ids purged (λ j. rw named (dropped-swept expired_ids j))

  pub delete_expired_tokens-Agrees :
      Agrees d
        (Tokens.delete_expired_tokens d now (calm t))
        (Sweep.delete_expired_tokens (keep d now) s)
  unfolding Tokens.delete_expired_tokens
  delete_expired_tokens-Agrees =
      let c = d.to_column now in
      let quiet : s.faults.token_err ≡ none = rw sim.faultless refl in
      let counted : Dict.count (token_expired (keep d now)) s.tokens
          ≡ count_where (is_expired c) t.tokens =
        rw sim.tokens (
          count-index (λ (k : AuthToken). k.token_hash) (stored_token d)
            (token_expired (keep d now)) (is_expired c) t.tokens expired-alike) in
      let made : Sweep.delete_expired_tokens (keep d now) s ≡ (
        ok (Dict.count (token_expired (keep d now)) s.tokens),
        Sweep.drop_all (Sweep.stranded (keep d now) s.tokens) (keep d now) purged,
      ) =
        unfold Sweep.delete_expired_tokens in rw quiet refl in
      in_tx-Agrees d t (Tokens.delete_expired_tokens_body d now) _ (
        answered (count_where (is_expired c) t.tokens) swept_tables (remove_all swept_ids purged)
          (unfold TokenQueries.expired_tokens in
            unfold TokenQueries.delete_expired_tokens in
            unfold statement in
            unfold expired_ids in
            rw (sweep_stranded-removes d t (users-nodup d t s sim wf) now expired_ids)
              (rw (count_rows-select d (is_expired c) t.tokens) refl))
          (made ∙ rw drop_all-swept (rw counted refl)) swept-Simulates)

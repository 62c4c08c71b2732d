-- ===== src/Sqlite/TokensSimulation.antt =====
-- The writes that make and redeem a single-use token, on the tables and on the store of testkit.
use gouncer.Base.{
  ℕ, ◌≡◌, refl, ap, ◌∙◌, inl, inr, Bool, true, false, not, ◌&&◌, ◌||◌, Option, none, some, [], ◌∷◌,
  ◌++◌, GoString, arith, ◌==◌, leb, nat_eq, string_eq, Bool-cases,
}
use gouncer.Base.Dict
use gouncer.Core.Errors.{user_not_found, token_exists}
use gouncer.Core.Results.{ok, or_fail}
use gouncer.Core.Types.{Token, purpose_invite}
use gouncer.Sqlite.Rows.{Driver, AuthUser, AuthToken, Tables, statement, find_where, count_where}
use gouncer.Sqlite.UserQueries
use gouncer.Sqlite.UserQueries.{has_id, id_of, live_token}
use gouncer.Sqlite.TokenQueries
use gouncer.Sqlite.TokenQueries.{sessions_where, tokens_where, for_purpose}
use gouncer.Sqlite.Tokens
use gouncer.Sqlite.Keyed.{when, when-ext}
use gouncer.Sqlite.View.{map_option, lookup-index, insert-index, count-index}
use gouncer.Sqlite.Simulation.{calm, stored_token, Simulates, Agrees, keep, keep_token}
use gouncer.Sqlite.UsersSimulation.{exists_where-find, tokens-Simulates}
use gouncer.Sqlite.RolesSimulation.{account_cases, find-user}
use gouncer.Sqlite.Transaction.{
  BodyAgrees, refused, answered, in_tx-Agrees, user_not_found-known, token_exists-known,
}
use gouncer.Testkit.State.{Store}
use gouncer.Testkit.Tokens as TestTokens
use gouncer.Testkit.Tokens.{put_token, drop_tokens, token_for, live_for}
use gouncer.Testkit.WellFormed.{IsWellFormed}

-- A row of a token.
abbrev pub token_row : Driver → Token → AuthToken
token_row d k = record {
  token_hash = k.token_hash;
  user_id = k.user_id;
  purpose = k.purpose;
  created_at = d.to_column k.created_at;
  expires_at = d.to_column k.expires_at;
}

abbrev add_token : AuthToken → Tables → Tables
add_token k t = record t { tokens = t.tokens ++ k ∷ [] }

module _ (d : Driver) (t : Tables) (s : Store) (sim : Simulates d t s) where
  pub lookup-token :
      (hash : GoString)
      → Dict.lookup hash s.tokens
        ≡ map_option (stored_token d) (find_where (λ k. k.token_hash == hash) t.tokens)
  lookup-token hash = rw sim.tokens (
      lookup-index (λ (k : AuthToken). k.token_hash) (stored_token d) hash
        (λ k. k.token_hash == hash) t.tokens (λ k. ground arith))

  put_token-Simulates :
      (k : Token)
      → Dict.lookup k.token_hash s.tokens ≡ none
      → Simulates d (add_token (token_row d k) t) (put_token (keep_token d k) s)
  put_token-Simulates k fresh = record {
    users = sim.users;
    sessions = sim.sessions;
    tokens = rw sim.tokens (
        insert-index (λ (k : AuthToken). k.token_hash) (stored_token d) (token_row d k) t.tokens
          (rw sim.tokens at fresh));
    faultless = sim.faultless;
  }

  insert_token-calm :
      (k : Token) (r : AuthUser)
      → Dict.lookup k.token_hash s.tokens ≡ none
      → find_where (has_id k.user_id) t.users ≡ some r
      → Tokens.insert_token d k (calm t) ≡ (ok tt, calm (add_token (token_row d k) t))
  unfolding Tokens.insert_token TokenQueries.create_token statement
  insert_token-calm k r fresh found =
      let held = exists_where-find (λ (r : AuthToken). r.token_hash == k.token_hash) t.tokens in
      let there = exists_where-find (has_id k.user_id) t.users in
      ground (arith, lookup-token k.token_hash)

module _ (d : Driver) (t : Tables) (s : Store) (sim : Simulates d t s) (wf : IsWellFormed s) where
  pub hold_enabled-calm :
      (id : ℕ) (o : Option AuthUser)
      → find_where (has_id id) t.users ≡ o
      → Tokens.hold_enabled d id (calm t)
        ≡ (or_fail (id_of (when (λ u. not u.disabled) o)) user_not_found, calm t)
  unfolding Tokens.hold_enabled UserQueries.lock_enabled_user statement
  hold_enabled-calm id o found =
      rw (find-user d t s sim wf id (λ u. not u.disabled)) (rw found refl)

  create_token-BodyAgrees :
      (now : ℕ) (k : Token) (live : ℕ)
      → Dict.lookup k.token_hash s.tokens ≡ none
      → BodyAgrees d t
          (Tokens.create_token_body d now k live (calm t))
          (TestTokens.create_token (keep d now) (keep_token d k) live s)
  create_token-BodyAgrees now k live fresh =
      let quiet : s.faults.token_err ≡ none = rw sim.faultless refl in
      let c = d.to_column now in
      let same : (x : AuthToken)
          → live_for k.user_id k.purpose (keep d now) x.token_hash (stored_token d x)
            ≡ live_token k.user_id k.purpose c x =
        λ x. rw (d.ordered c x.expires_at) ground arith in
      let standing : Dict.count (live_for k.user_id k.purpose (keep d now)) s.tokens
          ≡ count_where (live_token k.user_id k.purpose c) t.tokens =
        rw sim.tokens (
          count-index (λ (k : AuthToken). k.token_hash) (stored_token d)
            (live_for k.user_id k.purpose (keep d now)) (live_token k.user_id k.purpose c) t.tokens
            same) in
      elim (account_cases d t s sim wf k.user_id) [
        | inl (missing, none_there, absent) ↦
            refused user_not_found t s user_not_found-known
              (rw (hold_enabled-calm k.user_id none missing) refl)
              (unfold TestTokens.create_token in rw quiet (rw absent refl)) sim
        | inr (r, n, found, rows, present) ↦
            let lock = hold_enabled-calm k.user_id (some r) found in
            elim (Bool-cases r.disabled) [
              | inl off ↦
                  refused user_not_found t s user_not_found-known (rw lock (rw off refl))
                    (unfold TestTokens.create_token in rw quiet (rw present (rw off refl))) sim
              | inr on ↦
                  elim (Bool-cases
                    (leb live (count_where (live_token k.user_id k.purpose c) t.tokens))) [
                      | inl full ↦
                          refused token_exists t s token_exists-known
                            (unfold TokenQueries.count_live_tokens in
                              unfold statement in rw lock (rw on (rw full refl)))
                            (unfold TestTokens.create_token in
                              rw quiet (rw present (rw on (rw standing (rw full refl)))))
                            sim
                      | inr room ↦
                          answered tt (add_token (token_row d k) t) (put_token (keep_token d k) s)
                            (unfold TokenQueries.count_live_tokens in
                              unfold statement in
                              rw lock
                                (rw on (rw room (insert_token-calm d t s sim k r fresh found))))
                            (unfold TestTokens.create_token in
                              rw quiet (rw present (rw on (rw standing (rw room refl)))))
                            (put_token-Simulates d t s sim k fresh)
                    ]
            ]
      ]

  pub create_token-Agrees :
      (now : ℕ) (k : Token) (live : ℕ)
      → Dict.lookup k.token_hash s.tokens ≡ none
      → Agrees d
          (Tokens.create_token d now k live (calm t))
          (TestTokens.create_token (keep d now) (keep_token d k) live s)
  unfolding Tokens.create_token
  create_token-Agrees now k live fresh =
      in_tx-Agrees d t (Tokens.create_token_body d now k live) _
        (create_token-BodyAgrees now k live fresh)

  -- What `holdReplaceable` refuses.
  abbrev unreplaceable : GoString → AuthUser → Bool
  unreplaceable purpose u = u.disabled || (purpose == purpose_invite && u.confirmed)

  hold_replaceable-calm :
      (id : ℕ) (purpose : GoString) (o : Option AuthUser)
      → find_where (has_id id) t.users ≡ o
      → Tokens.hold_replaceable d id purpose (calm t)
        ≡ (or_fail (id_of (when (λ u. not (unreplaceable purpose u)) o)) user_not_found, calm t)
  unfolding Tokens.hold_replaceable UserQueries.lock_unactivated_user statement
  hold_replaceable-calm id purpose o found = elim (Bool-cases (purpose == purpose_invite)) [
    | inl invite ↦
        let one = find-user d t s sim wf id (λ u. not u.disabled && not u.confirmed) in
        rw (invite, Tokens.hold_replaceable)
          (rw one (
            rw found (
              ap (λ w. (or_fail (id_of w) user_not_found, calm t))
                (when-ext (λ u. not u.disabled && not u.confirmed)
                  (λ u. not (u.disabled || true && u.confirmed)) (λ u. ground arith) o))))
    | inr other ↦
        rw (other, Tokens.hold_replaceable)
          (hold_enabled-calm id o found
            ∙ ap (λ w. (or_fail (id_of w) user_not_found, calm t))
                (when-ext (λ u. not u.disabled) (λ u. not (u.disabled || false && u.confirmed))
                  (λ u. ground arith) o))
  ]

  replace_token-BodyAgrees :
      (k : Token)
      → Dict.lookup k.token_hash s.tokens ≡ none
      → BodyAgrees d t
          (Tokens.replace_token_body d k (calm t))
          (TestTokens.replace_token (keep_token d k) s)
  replace_token-BodyAgrees k fresh =
      let quiet : s.faults.token_err ≡ none = rw sim.faultless refl in
      let q = token_for k.user_id k.purpose in
      let p = for_purpose k.user_id k.purpose in
      let cleared = tokens-Simulates d t s sim q p (λ x. refl) in
      let unused = Dict.lookup-delete_func_absent k.token_hash q s.tokens fresh in
      elim (account_cases d t s sim wf k.user_id) [
        | inl (missing, none_there, absent) ↦
            refused user_not_found t s user_not_found-known
              (rw (hold_replaceable-calm k.user_id k.purpose none missing) refl)
              (unfold TestTokens.replace_token in rw quiet (rw absent refl)) sim
        | inr (r, n, found, rows, present) ↦
            let lock = hold_replaceable-calm k.user_id k.purpose (some r) found in
            elim (Bool-cases (unreplaceable k.purpose r)) [
              | inl off ↦
                  refused user_not_found t s user_not_found-known (rw lock (rw off refl))
                    (unfold TestTokens.replace_token in rw quiet (rw present (rw off refl))) sim
              | inr on ↦
                  let left = tokens_where p t in
                  answered tt (add_token (token_row d k) left)
                    (put_token (keep_token d k) (drop_tokens q s))
                    (unfold TokenQueries.delete_user_tokens_for_purpose in
                      unfold statement in
                      rw lock (
                        rw on
                          (insert_token-calm d left (drop_tokens q s) cleared k r unused found)))
                    (unfold TestTokens.replace_token in rw quiet (rw present (rw on refl)))
                    (put_token-Simulates d left (drop_tokens q s) cleared k unused)
            ]
      ]

  pub replace_token-Agrees :
      (k : Token)
      → Dict.lookup k.token_hash s.tokens ≡ none
      → Agrees d (Tokens.replace_token d k (calm t)) (TestTokens.replace_token (keep_token d k) s)
  unfolding Tokens.replace_token
  replace_token-Agrees k fresh =
      in_tx-Agrees d t (Tokens.replace_token_body d k) _ (replace_token-BodyAgrees k fresh)

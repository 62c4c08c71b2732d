-- ===== src/Sqlite/UsersSimulation.antt =====
-- The methods on accounts and sessions, on the tables and on the store of testkit.
use gouncer.Base.{
  ℕ, ◌≡◌, refl, ◌⊎◌, inl, inr, Bool, true, false, ◌||◌, none, some, List, [], ◌∷◌, ◌++◌, GoString,
  arith, ◌==◌, nat_eq, string_eq, Bool-cases,
}
use gouncer.Base.Dict
use gouncer.Core.Errors.{email_taken, setup_done}
use gouncer.Core.Results.{ok, err}
use gouncer.Core.Types.{User, Session, Token}
use gouncer.Sqlite.Rows.{
  Driver, AuthUser, AuthSession, AuthToken, Tables, statement, find_where, exists_where,
  update_where, count_where,
}
use gouncer.Sqlite.UserQueries
use gouncer.Sqlite.UserQueries.{has_id}
use gouncer.Sqlite.TokenQueries
use gouncer.Sqlite.TokenQueries.{sessions_where, tokens_where, is_over}
use gouncer.Sqlite.Users
use gouncer.Sqlite.Users.{stored_user, new_user_params, session_params, in_tx}
use gouncer.Sqlite.View.{
  index, map_option, lookup-index, any-index, insert-index, delete_func-index, count-index,
  update-index,
}
use gouncer.Sqlite.Simulation.{
  calm, stored_session, stored_token, Simulates, Agrees, Agrees-of, keep, keep_user, keep_session,
}
use gouncer.Sqlite.Keyed.{in_tx-err}
use gouncer.Sqlite.Transaction.{setup_done-known}
use gouncer.Testkit.State.{Store}
use gouncer.Testkit.Accounts
use gouncer.Testkit.Sessions
use gouncer.Testkit.WellFormed.{IsWellFormed}

-- A test that no row passes adds none to another.
exists_where-or :
    (p q : AuthUser → Bool) (rs : List AuthUser)
    → find_where p rs ≡ none
    → exists_where (λ r. p r || q r) rs ≡ exists_where q rs
unfolding find_where exists_where
exists_where-or p q [] h = refl
exists_where-or p q (r ∷ rs) h = ground (arith, exists_where-or p q rs)

pub exists_where-find :
    {A : Type 0} (p : A → Bool) (rs : List A)
    → ((find_where p rs ≡ none) × (exists_where p rs ≡ false))
      ⊎ ((r : A) × (find_where p rs ≡ some r) × (exists_where p rs ≡ true))
unfolding find_where exists_where
exists_where-find p [] = inl (refl, refl)
exists_where-find p (r ∷ rs) = elim (Bool-cases (p r)) [
  | inl hit ↦ inr (r, ground arith, ground arith)
  | inr miss ↦ elim (exists_where-find p rs) [
    | inl (missing, none_there) ↦ inl (ground arith, ground arith)
    | inr (x, found, one_there) ↦ inr (x, ground arith, ground arith)
  ]
]

pub rows_cases : {A : Type 0} (rs : List A) → (rs ≡ []) ⊎ ((r : A) × (l : List A) × (rs ≡ r ∷ l))
rows_cases [] = inl refl
rows_cases (r ∷ l) = inr (r, l, refl)

module _ (d : Driver) (t : Tables) (s : Store) (sim : Simulates d t s) where
  -- An account of the store is a row.
  pub lookup-row :
      (id : ℕ)
      → Dict.lookup id s.users ≡ map_option (stored_user d) (find_where (has_id id) t.users)
  lookup-row id = rw sim.users (
      lookup-index (λ (r : AuthUser). r.id) (stored_user d) id (has_id id) t.users
        (λ r. ground arith))

  pub create_user-Agrees :
      (u : User)
      → Dict.lookup u.id s.users ≡ none
      → Agrees d (Users.create_user d u (calm t)) (Accounts.create_user (keep_user d u) s)
  create_user-Agrees u fresh =
      let row = new_user_params d u in
      let absent : find_where (has_id u.id) t.users ≡ none = ground (arith, lookup-row u.id) in
      let same = exists_where-or (has_id u.id) (λ r. r.email == u.email) t.users absent in
      let quiet : s.faults.create_user_err ≡ none = rw sim.faultless refl in
      let taken : Dict.any (Accounts.has_email u.email) s.users
          ≡ exists_where (λ r. r.email == u.email) t.users =
        rw sim.users (
          any-index (λ (r : AuthUser). r.id) (stored_user d) (Accounts.has_email u.email)
            (λ r. r.email == u.email) t.users (λ r. refl)) in
      elim (Bool-cases (exists_where (λ (r : AuthUser). r.email == u.email) t.users)) [
        | inl used ↦
            Agrees-of d _ _ (err email_taken) t s
              (unfold Users.create_user in
                unfold UserQueries.create_user in
                unfold statement in ground (arith, d.unique_known))
              (unfold Accounts.create_user in ground arith) sim
        | inr free ↦
            Agrees-of d _ _ (ok tt) (record t { users = t.users ++ row ∷ [] })
              (Accounts.put_user u.id (keep_user d u) s)
              (unfold Users.create_user in
                unfold UserQueries.create_user in unfold statement in ground arith)
              (unfold Accounts.create_user in ground arith)
              record {
                users = rw sim.users (
                    insert-index (λ (r : AuthUser). r.id) (stored_user d) row t.users
                      (rw sim.users at fresh));
                sessions = sim.sessions;
                tokens = sim.tokens;
                faultless = sim.faultless;
              }
      ]

  pub create_first_user-Agrees :
      (u : User)
      → Agrees d
          (Users.create_first_user d u (calm t))
          (Accounts.create_first_user (keep_user d u) s)
  create_first_user-Agrees u =
      let row = new_user_params d u in
      let quiet : s.faults.create_user_err ≡ none = rw sim.faultless refl in
      elim (rows_cases t.users) [
        | inl empty ↦
            let nobody : s.users ≡ [] = rw sim.users (rw empty refl) in
            Agrees-of d _ _ (ok tt) (record t { users = t.users ++ row ∷ [] })
              (Accounts.put_user u.id (keep_user d u) s)
              (unfold Users.create_first_user in
                unfold UserQueries.has_users in
                unfold UserQueries.create_user in
                unfold in_tx in
                unfold Users.signal in
                unfold Users.ended in unfold statement in unfold exists_where in rw empty refl)
              (unfold Accounts.create_first_user in ground arith)
              record {
                users = unfold Dict.insert in rw nobody (rw empty refl);
                sessions = sim.sessions;
                tokens = sim.tokens;
                faultless = sim.faultless;
              }
        | inr (r, rs, some_rows) ↦
            let somebody : s.users
                ≡ (r.id, stored_user d r) ∷ index (λ (r : AuthUser). r.id) (stored_user d) rs =
              rw sim.users (rw some_rows refl) in
            Agrees-of d _ _ (err setup_done) t s
              (unfold Users.create_first_user in
                in_tx-err d (Users.create_first_user_body d u) t setup_done t
                  (unfold UserQueries.has_users in unfold statement in rw some_rows refl)
                  setup_done-known)
              (unfold Accounts.create_first_user in ground arith) sim
      ]

  pub create_session-Agrees :
      (x : Session) (u : User)
      → Dict.lookup x.token_hash s.sessions ≡ none
      → Dict.lookup x.user_id s.users ≡ some u
      → Agrees d (Users.create_session d x (calm t)) (Sessions.create_session (keep_session d x) s)
  create_session-Agrees x u fresh held =
      let row = session_params d x in
      let quiet : s.faults.create_session_err ≡ none = rw sim.faultless refl in
      let unused =
        exists_where-find (λ (r : AuthSession). r.token_hash == x.token_hash) t.sessions in
      let absent =
        lookup-index (λ (r : AuthSession). r.token_hash) (stored_session d) x.token_hash
          (λ (r : AuthSession). r.token_hash == x.token_hash) t.sessions (λ r. ground arith) in
      let there = exists_where-find (has_id x.user_id) t.users in
      Agrees-of d _ _ (ok tt) (record t { sessions = t.sessions ++ row ∷ [] })
        (record s { sessions = Dict.insert x.token_hash (keep_session d x) s.sessions })
        (unfold Users.create_session in
          unfold TokenQueries.create_session in
          unfold statement in ground (arith, lookup-row x.user_id, sim.sessions))
        (unfold Sessions.create_session in ground arith)
        record {
          users = sim.users;
          sessions = rw sim.sessions (
              insert-index (λ (r : AuthSession). r.token_hash) (stored_session d) row t.sessions
                (rw sim.sessions at fresh));
          tokens = sim.tokens;
          faultless = sim.faultless;
        }

  -- Deletes some sessions.
  pub sessions-Simulates :
      (q : GoString → Session → Bool) (p : AuthSession → Bool)
      → ((x : AuthSession) → q x.token_hash (stored_session d x) ≡ p x)
      → Simulates d (sessions_where p t) (record s { sessions = Dict.delete_func q s.sessions })
  sessions-Simulates q p same = record {
    users = sim.users;
    sessions = rw sim.sessions (
        delete_func-index (λ (r : AuthSession). r.token_hash) (stored_session d) q p t.sessions
          same);
    tokens = sim.tokens;
    faultless = sim.faultless;
  }

  -- Deletes some tokens.
  pub tokens-Simulates :
      (q : GoString → Token → Bool) (p : AuthToken → Bool)
      → ((k : AuthToken) → q k.token_hash (stored_token d k) ≡ p k)
      → Simulates d (tokens_where p t) (record s { tokens = Dict.delete_func q s.tokens })
  tokens-Simulates q p same = record {
    users = sim.users;
    sessions = sim.sessions;
    tokens =
        rw sim.tokens
          (delete_func-index (λ (r : AuthToken). r.token_hash) (stored_token d) q p t.tokens same);
    faultless = sim.faultless;
  }

  -- Writes one account.
  pub users-Simulates :
      (id : ℕ) (v w : User) (g : AuthUser → AuthUser)
      → IsWellFormed s
      → Dict.lookup id s.users ≡ some v
      → ((r : AuthUser) → (g r).id ≡ r.id)
      → ((r : AuthUser) → stored_user d r ≡ v → stored_user d (g r) ≡ w)
      → Simulates d
          (record t { users = update_where (has_id id) g t.users })
          (Accounts.put_user id w s)
  users-Simulates id v w g wf found keyed valued = record {
    users = rw sim.users (
        update-index (λ (r : AuthUser). r.id) (stored_user d) id v w g (has_id id) t.users
          (λ r. ground arith) keyed valued (rw sim.users at wf.users_keyed.nodup)
          (rw sim.users at found));
    sessions = sim.sessions;
    tokens = sim.tokens;
    faultless = sim.faultless;
  }

  pub delete_session-Agrees :
      (hash : GoString)
      → Agrees d (Users.delete_session d hash (calm t)) (Sessions.delete_session hash s)
  delete_session-Agrees hash =
      let quiet : s.faults.delete_err ≡ none = rw sim.faultless refl in
      Agrees-of d _ _ (ok tt) (sessions_where (λ x. x.token_hash == hash) t)
        (record s { sessions = Dict.delete hash s.sessions })
        (unfold Users.delete_session in
          unfold TokenQueries.delete_session in unfold statement in refl)
        (unfold Sessions.delete_session in ground arith)
        (unfold Dict.delete in
          sessions-Simulates (λ j _. hash == j) (λ x. x.token_hash == hash) (λ x. ground arith))

  pub delete_expired_sessions-Agrees :
      (now : ℕ)
      → Agrees d
          (Users.delete_expired_sessions d now (calm t))
          (Sessions.delete_expired_sessions (keep d now) s)
  delete_expired_sessions-Agrees now =
      let c = d.to_column now in
      let same : (x : AuthSession)
          → Sessions.session_expired (keep d now) x.token_hash (stored_session d x) ≡ is_over c x =
        λ x. rw (d.ordered c x.expires_at) refl in
      let rows =
        count-index (λ (r : AuthSession). r.token_hash) (stored_session d)
          (Sessions.session_expired (keep d now)) (is_over c) t.sessions same in
      let counted = Dict.length-delete_func (Sessions.session_expired (keep d now)) s.sessions in
      Agrees-of d _ _ (ok (count_where (is_over c) t.sessions)) (sessions_where (is_over c) t)
        (record s {
          sessions = Dict.delete_func (Sessions.session_expired (keep d now)) s.sessions;
        })
        (unfold Users.delete_expired_sessions in
          unfold TokenQueries.delete_expired_sessions in unfold statement in refl)
        (unfold Sessions.delete_expired_sessions in ground (arith, sim.sessions))
        (sessions-Simulates (Sessions.session_expired (keep d now)) (is_over c) same)

-- ===== src/Sqlite/Simulation.antt =====
-- When the tables stand for a store of testkit, and which calls are compared.
use gouncer.Base.{ℕ, ◌≡◌, refl, false, none, some, [], GoString, All, contains, string_eq, nat_eq}
use gouncer.Base.Dict
use gouncer.Core.Results.{Result}
use gouncer.Core.Roles.{Roles}
use gouncer.Core.Types.{User, Session, Token}
use gouncer.Sqlite.Rows.{Driver, AuthUser, AuthSession, AuthToken, Tables, Database}
use gouncer.Sqlite.Users.{stored_user}
use gouncer.Sqlite.View.{index}
use gouncer.Testkit.State.{Store, no_faults}
use gouncer.Testkit.Calls.{Call}

-- Tables on which no statement fails for a reason outside of the program.
abbrev pub calm : Tables → Database
calm t = record { tables = t; trouble = [] }

module _ (d : Driver) where
  open d use {to_column, from_column, through_json}

  abbrev pub stored_session : AuthSession → Session
  stored_session x = record {
    token = [];
    token_hash = x.token_hash;
    user_id = x.user_id;
    created_at = from_column x.created_at;
    expires_at = from_column x.expires_at;
  }

  abbrev pub stored_token : AuthToken → Token
  stored_token k = record {
    token = [];
    token_hash = k.token_hash;
    user_id = k.user_id;
    purpose = k.purpose;
    created_at = from_column k.created_at;
    expires_at = from_column k.expires_at;
  }

  abbrev pub users_of : Tables → Dict.Dict ℕ User
  users_of t = index (λ (r : AuthUser). r.id) (stored_user d) t.users

  abbrev pub sessions_of : Tables → Dict.Dict GoString Session
  sessions_of t = index (λ (r : AuthSession). r.token_hash) stored_session t.sessions

  abbrev pub tokens_of : Tables → Dict.Dict GoString Token
  tokens_of t = index (λ (r : AuthToken). r.token_hash) stored_token t.tokens

  -- The tables hold what the store holds, and no error is forced on the store.
  pub record Simulates (t : Tables) (s : Store) : Type 0 where
    pub users : s.users ≡ users_of t
    pub sessions : s.sessions ≡ sessions_of t
    pub tokens : s.tokens ≡ tokens_of t
    pub faultless : s.faults ≡ no_faults

  -- The two answer the same and stand for each other.
  pub record Agrees {A : Type 0} (r : Result A × Database) (q : Result A × Store) : Type 0 where
    pub answer : r.0 ≡ q.0
    pub untroubled : r.1.trouble ≡ []
    pub left : Simulates r.1.tables q.1

  -- An instant as a column keeps it.
  abbrev pub keep : ℕ → ℕ
  keep now = from_column (to_column now)

  abbrev pub keep_user : User → User
  keep_user u = record u { created_at = keep u.created_at }

  abbrev pub keep_session : Session → Session
  keep_session x = record x {
    token = [];
    created_at = keep x.created_at;
    expires_at = keep x.expires_at;
  }

  abbrev pub keep_token : Token → Token
  keep_token t = record t {
    token = [];
    created_at = keep t.created_at;
    expires_at = keep t.expires_at;
  }

  -- The call as the tables keep it: instants as columns keep them, and no secret.
  unfoldable pub kept : Call → Call
  kept (Call.create_user u) = Call.create_user (keep_user u)
  kept (Call.create_first_user u) = Call.create_first_user (keep_user u)
  kept (Call.create_session x) = Call.create_session (keep_session x)
  kept (Call.delete_expired_sessions now) = Call.delete_expired_sessions (keep now)
  kept (Call.create_token now t live) = Call.create_token (keep now) (keep_token t) live
  kept (Call.replace_token t) = Call.replace_token (keep_token t)
  kept (Call.activate_by_token hash now password_hash) =
      Call.activate_by_token hash (keep now) password_hash
  kept (Call.reset_by_token hash now password_hash) =
      Call.reset_by_token hash (keep now) password_hash
  kept (Call.delete_expired_tokens now) = Call.delete_expired_tokens (keep now)
  kept c = c

  -- Roles that pass through JSON unchanged, none of them empty.
  abbrev pub ArePlain : Roles → Type 0
  ArePlain privileged = All (λ r. through_json r ≡ r) privileged × (contains privileged [] ≡ false)

  -- The keys that a call inserts are new, a session is for an account that is there, and the
  -- privileged roles are plain. A store of testkit would overwrite an entry where a table refuses.
  abbrev pub Admissible : Call → Store → Type 0
  Admissible (Call.create_user u) s = Dict.lookup u.id s.users ≡ none
  Admissible (Call.create_session x) s =
      (Dict.lookup x.token_hash s.sessions ≡ none)
      × ((u : User) × (Dict.lookup x.user_id s.users ≡ some u))
  Admissible (Call.create_token now t live) s = Dict.lookup t.token_hash s.tokens ≡ none
  Admissible (Call.replace_token t) s = Dict.lookup t.token_hash s.tokens ≡ none
  Admissible (Call.set_user_disabled_under_cover id disabled privileged) s = ArePlain privileged
  Admissible (Call.set_user_disabled_from id held disabled privileged) s = ArePlain privileged
  Admissible (Call.set_user_role id role privileged) s = ArePlain privileged
  Admissible (Call.set_user_role_from id held role privileged) s = ArePlain privileged
  Admissible c s = Unit {0}

  -- Two results that are known agree where what they leave does.
  pub Agrees-of :
      {A : Type 0} (r : Result A × Database) (q : Result A × Store) (answer : Result A) (t : Tables)
      (s : Store)
      → r ≡ (answer, calm t)
      → q ≡ (answer, s)
      → Simulates t s
      → Agrees r q
  Agrees-of r q answer t s ran made sim = record {
    answer = rw ran (rw made refl);
    untroubled = rw ran refl;
    left = rw ran (rw made sim);
  }

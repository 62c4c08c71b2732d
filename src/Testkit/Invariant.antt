-- ===== src/Testkit/Invariant.antt =====
-- Every call keeps the store well formed, and so does every history.
use gouncer.Base.{
  ℕ, suc, refl, Bool, List, [], ◌∷◌, GoString, arith, nat_eq, string_eq, inl, inr, ◌==◌, Bool-cases,
  Option-cases, ◌||◌,
}
use gouncer.Base.Dict
use gouncer.Core.Results.{Result}
use gouncer.Core.Roles.{Roles}
use gouncer.Core.Types.{User, Session, Token, purpose_reset}
use gouncer.Testkit.State.{Store, new_store}
use gouncer.Testkit.Accounts.{
  has_email, create_user, create_first_user, grant_to, grant_role_to_roleless,
}
use gouncer.Testkit.Sessions.{
  create_session, delete_session, delete_expired_sessions, session_expired,
}
use gouncer.Testkit.Guard.{
  session_of, set_disabled, set_user_disabled, disable_under_cover, set_user_disabled_under_cover,
  set_user_disabled_from, set_role, set_user_role, set_user_role_from, any_role, still_holds,
}
use gouncer.Testkit.Tokens.{
  token_for, activated, create_token, replace_token, activate_by_token, reset_by_token,
}
use gouncer.Testkit.Sweep.{
  holds_live_invite, drop_stranded, drop_all, stranded, token_expired, delete_expired_tokens,
}
use gouncer.Testkit.Cases.{
  create_session_cases, delete_session_cases, delete_expired_tokens_cases, create_user_cases,
  create_first_user_cases, set_disabled_cases, disable_under_cover_cases, set_role_cases,
  create_token_cases, replace_token_cases, activate_by_token_cases, reset_by_token_cases,
}
use gouncer.Testkit.WellFormed.{
  IsWellFormed, insert-IsKeyed, delete-IsKeyed, put_user-IsWellFormed, rewrite-IsWellFormed,
  sessions-IsWellFormed, drop_sessions-IsWellFormed, drop_tokens-IsWellFormed, spend-IsWellFormed,
  put_token-IsWellFormed, revoke-IsWellFormed, noted-IsWellFormed, remove_account-IsWellFormed,
}
use gouncer.Testkit.Calls.{Call, step, run}

create_user-IsWellFormed :
    (u : User) (s : Store) → IsWellFormed s → IsWellFormed (create_user u s).1
create_user-IsWellFormed u s w = elim (create_user_cases u s) [
  | inl (_, e) ↦ rw e w
  | inr (free, e) ↦ rw e (
      put_user-IsWellFormed u.id u s refl
        (λ k v found same.
          cc (free, Dict.lookup-any k v (has_email u.email) s.users found (ground arith)))
        w)
]

create_first_user-IsWellFormed :
    (u : User) (s : Store) → IsWellFormed s → IsWellFormed (create_first_user u s).1
unfolding Dict.lookup
create_first_user-IsWellFormed u s w = elim (create_first_user_cases u s) [
  | inl (_, e) ↦ rw e w
  | inr (empty, e) ↦ rw e (put_user-IsWellFormed u.id u s refl (λ k v found same. ground arith) w)
]

set_disabled-IsWellFormed :
    (id : ℕ) (disabled : Bool) (s : Store)
    → IsWellFormed s
    → IsWellFormed (set_disabled id disabled s).1
set_disabled-IsWellFormed id disabled s w = elim (set_disabled_cases id disabled s) [
  | inl (_, e) ↦ rw e w
  | inr (u, found, e) ↦
      rw e (revoke-IsWellFormed id disabled _ (rewrite-IsWellFormed id u _ s found refl refl w))
]

disable_under_cover-IsWellFormed :
    (id : ℕ) (disabled : Bool) (privileged : Roles) (accepts : User → Result (Unit {0})) (s : Store)
    → IsWellFormed s
    → IsWellFormed (disable_under_cover id disabled privileged accepts s).1
disable_under_cover-IsWellFormed id disabled privileged accepts s w =
    let v = noted-IsWellFormed privileged (suc s.disabled_under_cover) s w in
    elim (disable_under_cover_cases id disabled privileged accepts s) [
      | inl (_, e) ↦ rw e v
      | inr (u, found, _, _, e) ↦
          rw e (revoke-IsWellFormed id disabled _ (rewrite-IsWellFormed id u _ _ found refl refl v))
    ]

set_role-IsWellFormed :
    (id : ℕ) (role : GoString) (privileged : Roles) (accepts : User → Result (Unit {0})) (s : Store)
    → IsWellFormed s
    → IsWellFormed (set_role id role privileged accepts s).1
set_role-IsWellFormed id role privileged accepts s w =
    let v = noted-IsWellFormed privileged s.disabled_under_cover s w in
    elim (set_role_cases id role privileged accepts s) [
      | inl (_, e) ↦ rw e v
      | inr (u, found, _, _, e) ↦ rw e (rewrite-IsWellFormed id u _ _ found refl refl v)
    ]

create_token-IsWellFormed :
    (now : ℕ) (t : Token) (live : ℕ) (s : Store)
    → IsWellFormed s
    → IsWellFormed (create_token now t live s).1
create_token-IsWellFormed now t live s w = elim (create_token_cases now t live s) [
  | inl (_, e) ↦ rw e w
  | inr (_, _, _, _, e) ↦ rw e (put_token-IsWellFormed t s w)
]

replace_token-IsWellFormed :
    (t : Token) (s : Store) → IsWellFormed s → IsWellFormed (replace_token t s).1
replace_token-IsWellFormed t s w = elim (replace_token_cases t s) [
  | inl (_, e) ↦ rw e w
  | inr (_, _, _, e) ↦ rw e (put_token-IsWellFormed t _ (drop_tokens-IsWellFormed _ s w))
]

activate_by_token-IsWellFormed :
    (hash : GoString) (now : ℕ) (password_hash : GoString) (s : Store)
    → IsWellFormed s
    → IsWellFormed (activate_by_token hash now password_hash s).1
activate_by_token-IsWellFormed hash now password_hash s w =
    elim (activate_by_token_cases hash now password_hash s) [
      | inl (_, e) ↦ rw e w
      | inr (t, u, _, _, _, _, found, _, e) ↦ rw e (
          spend-IsWellFormed hash _
            (rewrite-IsWellFormed t.user_id u (activated password_hash u) s found refl refl w))
    ]

reset_by_token-IsWellFormed :
    (hash : GoString) (now : ℕ) (password_hash : GoString) (s : Store)
    → IsWellFormed s
    → IsWellFormed (reset_by_token hash now password_hash s).1
reset_by_token-IsWellFormed hash now password_hash s w =
    elim (reset_by_token_cases hash now password_hash s) [
      | inl (_, e) ↦ rw e w
      | inr (t, u, _, _, _, _, found, _, e) ↦ rw e (
          spend-IsWellFormed hash _ (
            drop_tokens-IsWellFormed (token_for t.user_id purpose_reset) _ (
              drop_sessions-IsWellFormed (session_of t.user_id) _
                (rewrite-IsWellFormed t.user_id u _ s found refl refl w))))
    ]

granted-IsWellFormed :
    (role : GoString) (s : Store)
    → IsWellFormed s
    → IsWellFormed (record s { users = Dict.map_values (grant_to role) s.users })
granted-IsWellFormed role s w =
    let origin = λ (k : ℕ) (u : User). Dict.map_values-lookup k (grant_to role) u s.users in
    record {
      users_keyed = record {
        nodup = Dict.map_values-NodupKeys (grant_to role) s.users w.users_keyed.nodup;
        keyed = λ k u found.
            let (v, old, same) = origin k u found in ground (arith, w.users_keyed.keyed k v old);
      };
      sessions_keyed = w.sessions_keyed;
      tokens_keyed = w.tokens_keyed;
      emails_distinct = λ j k x y fx fy same.
          let (a, fa, ea) = origin j x fx in
          let (b, fb, eb) = origin k y fy in w.emails_distinct j k a b fa fb (ground arith);
    }

grant-IsWellFormed :
    (role : GoString) (s : Store) → IsWellFormed s → IsWellFormed (grant_role_to_roleless role s).1
unfolding grant_role_to_roleless
grant-IsWellFormed role s w = elim (Bool-cases (role == [])) [
  | inl e ↦ rw e w
  | inr e ↦ rw e (granted-IsWellFormed role s w)
]

pub drop_stranded-IsWellFormed :
    (id now : ℕ) (s : Store) → IsWellFormed s → IsWellFormed (drop_stranded id now s)
unfolding drop_stranded
drop_stranded-IsWellFormed id now s w = elim (Option-cases (Dict.lookup id s.users)) [
  | inl e ↦ rw (e, drop_stranded) w
  | inr (u, e) ↦
      rw (e, drop_stranded)
        (elim (Bool-cases (u.confirmed || holds_live_invite id now s)) [
          | inl keep ↦ rw keep w
          | inr go ↦ rw go (remove_account-IsWellFormed id s w)
        ])
]

drop_all-IsWellFormed :
    (ids : List ℕ) (now : ℕ) (s : Store) → IsWellFormed s → IsWellFormed (drop_all ids now s)
unfolding drop_all
drop_all-IsWellFormed [] now s w = w
drop_all-IsWellFormed (id ∷ ids) now s w =
    drop_all-IsWellFormed ids now _ (drop_stranded-IsWellFormed id now s w)

delete_expired_tokens-IsWellFormed :
    (now : ℕ) (s : Store) → IsWellFormed s → IsWellFormed (delete_expired_tokens now s).1
delete_expired_tokens-IsWellFormed now s w = elim (delete_expired_tokens_cases now s) [
  | inl (_, e) ↦ rw e w
  | inr e ↦ rw e (
      drop_all-IsWellFormed (stranded now s.tokens) now _
        (drop_tokens-IsWellFormed (token_expired now) s w))
]

create_session-IsWellFormed :
    (x : Session) (s : Store) → IsWellFormed s → IsWellFormed (create_session x s).1
create_session-IsWellFormed x s w = elim (create_session_cases x s) [
  | inl (_, e) ↦ rw e w
  | inr e ↦ rw e (
      sessions-IsWellFormed _ s (insert-IsKeyed _ x.token_hash x s.sessions refl w.sessions_keyed)
        w)
]

delete_session-IsWellFormed :
    (hash : GoString) (s : Store) → IsWellFormed s → IsWellFormed (delete_session hash s).1
delete_session-IsWellFormed hash s w = elim (delete_session_cases hash s) [
  | inl (_, e) ↦ rw e w
  | inr e ↦ rw e (sessions-IsWellFormed _ s (delete-IsKeyed _ hash s.sessions w.sessions_keyed) w)
]

-- Every call, refused or not, keeps the store well formed: each account, session and token stands
-- under its own key, once, and no two accounts hold one email.
pub step-IsWellFormed : (c : Call) (s : Store) → IsWellFormed s → IsWellFormed (step c s)
unfolding step delete_expired_sessions set_user_disabled set_user_disabled_under_cover
    set_user_disabled_from set_user_role set_user_role_from
step-IsWellFormed (Call.create_user u) s w = create_user-IsWellFormed u s w
step-IsWellFormed (Call.create_first_user u) s w = create_first_user-IsWellFormed u s w
step-IsWellFormed (Call.grant_role_to_roleless role) s w = grant-IsWellFormed role s w
step-IsWellFormed (Call.create_session x) s w = create_session-IsWellFormed x s w
step-IsWellFormed (Call.delete_session hash) s w = delete_session-IsWellFormed hash s w
step-IsWellFormed (Call.delete_expired_sessions now) s w =
    drop_sessions-IsWellFormed (session_expired now) s w
step-IsWellFormed (Call.set_user_disabled id disabled) s w =
    set_disabled-IsWellFormed id disabled s w
step-IsWellFormed (Call.set_user_disabled_under_cover id disabled privileged) s w =
    disable_under_cover-IsWellFormed id disabled privileged any_role s w
step-IsWellFormed (Call.set_user_disabled_from id held disabled privileged) s w =
    disable_under_cover-IsWellFormed id disabled privileged (still_holds held) s w
step-IsWellFormed (Call.set_user_role id role privileged) s w =
    set_role-IsWellFormed id role privileged any_role s w
step-IsWellFormed (Call.set_user_role_from id held role privileged) s w =
    set_role-IsWellFormed id role privileged (still_holds held) s w
step-IsWellFormed (Call.create_token now t live) s w = create_token-IsWellFormed now t live s w
step-IsWellFormed (Call.replace_token t) s w = replace_token-IsWellFormed t s w
step-IsWellFormed (Call.activate_by_token hash now password_hash) s w =
    activate_by_token-IsWellFormed hash now password_hash s w
step-IsWellFormed (Call.reset_by_token hash now password_hash) s w =
    reset_by_token-IsWellFormed hash now password_hash s w
step-IsWellFormed (Call.delete_expired_tokens now) s w = delete_expired_tokens-IsWellFormed now s w

run_from-IsWellFormed : (cs : List Call) (s : Store) → IsWellFormed s → IsWellFormed (run cs s)
unfolding run
run_from-IsWellFormed [] s w = w
run_from-IsWellFormed (c ∷ cs) s w = run_from-IsWellFormed cs _ (step-IsWellFormed c s w)

pub new_store-IsWellFormed : IsWellFormed new_store
unfolding new_store Dict.lookup
new_store-IsWellFormed = record {
  users_keyed = record { nodup = tt; keyed = λ k v h. cc };
  sessions_keyed = record { nodup = tt; keyed = λ k v h. cc };
  tokens_keyed = record { nodup = tt; keyed = λ k v h. cc };
  emails_distinct = λ j k u v h. cc;
}

-- After any history of calls on an empty store, each account, session and token stands under its
-- own key, once, and no two accounts hold one email.
pub run-IsWellFormed : (cs : List Call) → IsWellFormed (run cs new_store)
run-IsWellFormed cs = run_from-IsWellFormed cs new_store new_store-IsWellFormed

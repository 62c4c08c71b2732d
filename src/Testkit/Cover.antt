-- ===== src/Testkit/Cover.antt =====
-- The guard of `SetUserRole`, `SetUserDisabledUnderCover` and their checked forms: some enabled
-- account keeps a privileged role.
use gouncer.Base.{
  ℕ, ◌≡◌, refl, ◌↔◌, ◌≢◌, Bool, true, false, not, ◌&&◌, none, some, List, [], ◌∷◌, GoString, arith,
  nat_eq, string_eq, inl, inr, ◌==◌, Bool-cases,
}
use gouncer.Base.Dict
use gouncer.Core.Errors.{last_privileged}
use gouncer.Core.Results.{Result, ok, err}
use gouncer.Core.Roles.{Roles, holds}
use gouncer.Core.Types.{User, Session, Token}
use gouncer.Testkit.State.{Store}
use gouncer.Testkit.Accounts.{create_user, create_first_user, grant_to, grant_role_to_roleless}
use gouncer.Testkit.Guard.{
  revoke, set_user_disabled, set_user_disabled_under_cover, set_user_disabled_from, set_role,
  set_user_role, set_user_role_from, disable_under_cover, privileged_account, covers_beside,
  any_role, still_holds, refuse_uncovered,
}
use gouncer.Testkit.Tokens.{
  activated, create_token, replace_token, activate_by_token, reset_by_token,
}
use gouncer.Testkit.Sessions.{create_session, delete_session, delete_expired_sessions}
use gouncer.Testkit.Cases.{
  create_user_cases, create_first_user_cases, set_disabled_cases, disable_under_cover_cases,
  set_role_cases, create_token_cases, replace_token_cases, activate_by_token_cases,
  reset_by_token_cases, create_session_cases, delete_session_cases,
}
use gouncer.Testkit.WellFormed.{IsWellFormed}
use gouncer.Testkit.Invariant.{step-IsWellFormed}
use gouncer.Testkit.Calls.{Call, step, run}

-- Some enabled account holds a privileged role.
abbrev pub IsCovered : Roles → Dict.Dict ℕ User → Type 0
IsCovered privileged users =
    (k : ℕ) × (u : User) × (Dict.lookup k users ≡ some u) × (privileged_account privileged u ≡ true)

-- Whether the guard, or the account, rules out that a write removes the cover.
abbrev Passes : Roles → Bool → User → ℕ → Dict.Dict ℕ User → Type 0
Passes privileged removes_cover u id users =
    ((removes_cover && privileged_account privileged u)
      && not (Dict.any (covers_beside id privileged) users))
    ≡ false

-- A written account leaves the cover where it was, or is covered beside.
insert-IsCovered :
    (privileged : Roles) (id : ℕ) (u v : User) (removes_cover : Bool) (users : Dict.Dict ℕ User)
    → Dict.NodupKeys users
    → IsCovered privileged users
    → Dict.lookup id users ≡ some u
    → Passes privileged removes_cover u id users
    → (removes_cover ≡ false
        → privileged_account privileged u ≡ true
        → privileged_account privileged v ≡ true)
    → IsCovered privileged (Dict.insert id v users)
insert-IsCovered privileged id u v removes_cover users w (k, x, found, covers) held passes keeps =
    elim (Bool-cases (Dict.any (covers_beside id privileged) users)) [
      | inl other ↦
          let (j, y, fy, beside) = Dict.any-lookup _ users w other in
          (j, y, ground (arith, Dict.lookup-insert j id v users), ground arith)
      | inr alone ↦ elim (Bool-cases (k == id)) [
        | inl this ↦ (id, v, ground (arith, Dict.lookup-insert id id v users), ground arith)
        | inr that ↦ (k, x, ground (arith, Dict.lookup-insert k id v users), covers)
      ]
    ]

set_role-IsCovered :
    (privileged : Roles) (id : ℕ) (role : GoString) (accepts : User → Result (Unit {0})) (s : Store)
    → IsWellFormed s
    → IsCovered privileged s.users
    → IsCovered privileged (set_role id role privileged accepts s).1.users
set_role-IsCovered privileged id role accepts s w c =
    elim (set_role_cases id role privileged accepts s) [
      | inl (_, e) ↦ rw e c
      | inr (u, found, _, passes, e) ↦ rw e (
          insert-IsCovered privileged id u (record u { role = role }) (not (holds privileged role))
            s.users w.users_keyed.nodup c found passes (λ stays was. ground arith))
    ]

-- The deletes that follow a disabling touch no account.
revoke-users : (id : ℕ) (disabled : Bool) (s : Store) → (revoke id disabled s).users ≡ s.users
revoke-users id true s = refl
revoke-users id false s = refl

disable_under_cover-IsCovered :
    (privileged : Roles) (id : ℕ) (disabled : Bool) (accepts : User → Result (Unit {0})) (s : Store)
    → IsWellFormed s
    → IsCovered privileged s.users
    → IsCovered privileged (disable_under_cover id disabled privileged accepts s).1.users
disable_under_cover-IsCovered privileged id disabled accepts s w c =
    elim (disable_under_cover_cases id disabled privileged accepts s) [
      | inl (_, e) ↦ rw e c
      | inr (u, found, _, passes, e) ↦ rw e (
          rw (revoke-users id disabled) (
            insert-IsCovered privileged id u (record u { disabled = disabled }) disabled s.users
              w.users_keyed.nodup c found passes (λ stays was. ground arith)))
    ]

enable-IsCovered :
    (privileged : Roles) (id : ℕ) (s : Store)
    → IsWellFormed s
    → IsCovered privileged s.users
    → IsCovered privileged (set_user_disabled id false s).1.users
unfolding set_user_disabled
enable-IsCovered privileged id s w c = elim (set_disabled_cases id false s) [
  | inl (_, e) ↦ rw e c
  | inr (u, found, e) ↦ rw e (
      insert-IsCovered privileged id u (record u { disabled = false }) false s.users
        w.users_keyed.nodup c found refl (λ stays was. ground arith))
]

create_user-IsCovered :
    (privileged : Roles) (u : User) (s : Store)
    → Dict.lookup u.id s.users ≡ none
    → IsCovered privileged s.users
    → IsCovered privileged (create_user u s).1.users
create_user-IsCovered privileged u s free (k, x, found, covers) = elim (create_user_cases u s) [
  | inl (_, e) ↦ rw e (k, x, found, covers)
  | inr (_, e) ↦ rw e (k, x, ground (arith, Dict.lookup-insert k u.id u s.users), covers)
]

create_first_user-IsCovered :
    (privileged : Roles) (u : User) (s : Store)
    → IsCovered privileged s.users
    → IsCovered privileged (create_first_user u s).1.users
unfolding Dict.lookup
create_first_user-IsCovered privileged u s (k, x, found, covers) =
    elim (create_first_user_cases u s) [
      | inl (_, e) ↦ rw e (k, x, found, covers)
      | inr (empty, e) ↦ absurd (ground arith)
    ]

grant-IsCovered :
    (privileged : Roles) (role : GoString) (s : Store)
    → IsCovered privileged s.users
    → IsCovered privileged (grant_role_to_roleless role s).1.users
unfolding grant_role_to_roleless holds
grant-IsCovered privileged role s (k, x, found, covers) = elim (Bool-cases (role == [])) [
  | inl e ↦ rw e (k, x, found, covers)
  | inr e ↦ rw e (
    k,
    grant_to role x,
    ground (arith, Dict.lookup-map_values k (grant_to role) s.users),
    ground arith,
  )
]

redeem-IsCovered :
    (privileged : Roles) (hash : GoString) (now : ℕ) (password_hash : GoString) (s : Store)
    → IsWellFormed s
    → IsCovered privileged s.users
    → IsCovered privileged (activate_by_token hash now password_hash s).1.users
      × IsCovered privileged (reset_by_token hash now password_hash s).1.users
redeem-IsCovered privileged hash now password_hash s w c = (
  elim (activate_by_token_cases hash now password_hash s) [
    | inl (_, e) ↦ rw e c
    | inr (t, u, _, _, _, _, found, _, e) ↦ rw e (
        insert-IsCovered privileged t.user_id u (activated password_hash u) false s.users
          w.users_keyed.nodup c found refl (λ stays was. ground arith))
  ],
  elim (reset_by_token_cases hash now password_hash s) [
    | inl (_, e) ↦ rw e c
    | inr (t, u, _, _, _, _, found, _, e) ↦ rw e (
        insert-IsCovered privileged t.user_id u (record u { password_hash = password_hash }) false
          s.users w.users_keyed.nodup c found refl (λ stays was. ground arith))
  ],
)

-- What the guard asks of a call: guarded writes name the privileged roles, no other write disables
-- an account, a new account has a new id, and no sweep removes accounts.
abbrev pub IsGuarded : Roles → Store → Call → Type 0
IsGuarded privileged s (Call.create_user u) = Dict.lookup u.id s.users ≡ none
IsGuarded privileged s (Call.set_user_disabled id disabled) = disabled ≡ false
IsGuarded privileged s (Call.set_user_disabled_under_cover id disabled given) = given ≡ privileged
IsGuarded privileged s (Call.set_user_disabled_from id held disabled given) = given ≡ privileged
IsGuarded privileged s (Call.set_user_role id role given) = given ≡ privileged
IsGuarded privileged s (Call.set_user_role_from id held role given) = given ≡ privileged
IsGuarded privileged s (Call.delete_expired_tokens now) = ⊥
IsGuarded privileged s _ = Unit {0}

-- The calls that write sessions and tokens alone.
keep_users :
    (s : Store)
    → ((x : Session) → (create_session x s).1.users ≡ s.users)
      × ((hash : GoString) → (delete_session hash s).1.users ≡ s.users)
      × ((now : ℕ) (t : Token) (live : ℕ) → (create_token now t live s).1.users ≡ s.users)
      × ((t : Token) → (replace_token t s).1.users ≡ s.users)
keep_users s = (
  λ x. ground (arith, create_session_cases x s),
  λ hash. ground (arith, delete_session_cases hash s),
  λ now t live. ground (arith, create_token_cases now t live s),
  λ t. ground (arith, replace_token_cases t s),
)

step-IsCovered :
    (privileged : Roles) (c : Call) (s : Store)
    → IsGuarded privileged s c
    → IsWellFormed s
    → IsCovered privileged s.users
    → IsCovered privileged (step c s).users
unfolding step delete_expired_sessions set_user_disabled_under_cover set_user_disabled_from
    set_user_role set_user_role_from
step-IsCovered p (Call.create_user u) s g w c = create_user-IsCovered p u s g c
step-IsCovered p (Call.create_first_user u) s g w c = create_first_user-IsCovered p u s c
step-IsCovered p (Call.grant_role_to_roleless role) s g w c = grant-IsCovered p role s c
step-IsCovered p (Call.create_session x) s g w c = rw ((keep_users s).0 x) c
step-IsCovered p (Call.delete_session hash) s g w c = rw ((keep_users s).1 hash) c
step-IsCovered p (Call.delete_expired_sessions now) s g w c = c
step-IsCovered p (Call.set_user_disabled id disabled) s g w c = rw g (enable-IsCovered p id s w c)
step-IsCovered p (Call.set_user_disabled_under_cover id disabled given) s g w c =
    rw g (disable_under_cover-IsCovered p id disabled any_role s w c)
step-IsCovered p (Call.set_user_disabled_from id held disabled given) s g w c =
    rw g (disable_under_cover-IsCovered p id disabled (still_holds held) s w c)
step-IsCovered p (Call.set_user_role id role given) s g w c =
    rw g (set_role-IsCovered p id role any_role s w c)
step-IsCovered p (Call.set_user_role_from id held role given) s g w c =
    rw g (set_role-IsCovered p id role (still_holds held) s w c)
step-IsCovered p (Call.create_token now t live) s g w c = rw ((keep_users s).2 now t live) c
step-IsCovered p (Call.replace_token t) s g w c = rw ((keep_users s).3 t) c
step-IsCovered p (Call.activate_by_token hash now password_hash) s g w c =
    (redeem-IsCovered p hash now password_hash s w c).0
step-IsCovered p (Call.reset_by_token hash now password_hash) s g w c =
    (redeem-IsCovered p hash now password_hash s w c).1
step-IsCovered p (Call.delete_expired_tokens now) s g w c = absurd g

-- Every call of a history is guarded where it is made.
abbrev pub GuardedRun : Roles → Store → List Call → Type 0
GuardedRun privileged s [] = Unit {0}
GuardedRun privileged s (c ∷ cs) = IsGuarded privileged s c × GuardedRun privileged (step c s) cs

-- From a well-formed store in which some enabled account holds a privileged role, any history
-- leaves such an account, if its guarded writes name the privileged roles, it disables no account
-- by the unguarded write, it creates accounts under new ids, and it has no sweep of tokens.
pub run-IsCovered :
    (privileged : Roles) (cs : List Call) (s : Store)
    → GuardedRun privileged s cs
    → IsWellFormed s
    → IsCovered privileged s.users
    → IsCovered privileged (run cs s).users
unfolding run
run-IsCovered privileged [] s g w c = c
run-IsCovered privileged (call ∷ cs) s g w c =
    run-IsCovered privileged cs _ g.1 (step-IsWellFormed call s w)
      (step-IsCovered privileged call s g.0 w c)

-- A role write answers `last_privileged` exactly when it would take the last privileged role: the
-- role given is not privileged, the account's is, and no other enabled account holds one. The
-- account exists, the check of its held role passes, and no error is forced.
pub set_role_refused_iff :
    (id : ℕ) (role : GoString) (privileged : Roles) (accepts : User → Result (Unit {0})) (s : Store)
    (u : User)
    → IsWellFormed s
    → s.faults.set_role_err ≡ none
    → Dict.lookup id s.users ≡ some u
    → accepts u ≡ ok tt
    → ((set_role id role privileged accepts s).0 ≡ err last_privileged) ↔ (
        (holds privileged role ≡ false)
        × (privileged_account privileged u ≡ true)
        × ((k : ℕ) (v : User)
            → Dict.lookup k s.users ≡ some v
            → k ≢ id
            → privileged_account privileged v ≡ false))
unfolding set_role refuse_uncovered
set_role_refused_iff id role privileged accepts s u w clear found accepted =
    elim (Bool-cases (Dict.any (covers_beside id privileged) s.users)) [
      | inl other ↦
          let (j, y, fy, beside) = Dict.any-lookup _ s.users w.users_keyed.nodup other in
          (λ h. absurd (ground arith), λ (a, b, alone). absurd (ground (arith, alone j y)))
      | inr none_beside ↦ (
        λ h. (
          ground arith,
          ground arith,
          λ k v fv apart.
              ground (arith, Dict.lookup-any k v (covers_beside id privileged) s.users fv),
        ),
        λ (a, b, alone). ground arith,
      )
    ]

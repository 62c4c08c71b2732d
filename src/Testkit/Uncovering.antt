-- ===== src/Testkit/Uncovering.antt =====
-- What a role write and a sweep of expired tokens, one after the other, do to the cover.
use gouncer.Base.{
  ℕ, ◌≡◌, refl, ◌≢◌, Bool, true, false, ◌||◌, none, some, GoString, arith, nat_eq, string_eq, inl,
  inr, ◌==◌, Bool-cases,
}
use gouncer.Base.Dict
use gouncer.Core.Results.{ok}
use gouncer.Core.Roles.{Roles, holds}
use gouncer.Core.Types.{User}
use gouncer.Testkit.State.{Store}
use gouncer.Testkit.Guard.{set_role, set_user_role, refuse_uncovered, any_role, covers_beside}
use gouncer.Testkit.Sweep.{token_expired, holds_live_invite, delete_expired_tokens}
use gouncer.Testkit.Cases.{set_role_cases}
use gouncer.Testkit.Calls.{Call, step}
use gouncer.Testkit.WellFormed.{IsWellFormed}
use gouncer.Testkit.Invariant.{step-IsWellFormed}
use gouncer.Testkit.Sweeping.{is_stranded, delete_expired_tokens-users}

-- Every enabled account of a privileged role is one the test holds for.
abbrev pub AllPrivileged : Roles → (ℕ → Bool) → Store → Type 0
AllPrivileged privileged p s =
    (k : ℕ) (x : User)
    → Dict.lookup k s.users ≡ some x
    → x.disabled ≡ false
    → holds privileged x.role ≡ true
    → p k ≡ true

-- No enabled account holds a privileged role.
abbrev pub NonePrivileged : Roles → Store → Type 0
NonePrivileged privileged s =
    (k : ℕ) (x : User)
    → Dict.lookup k s.users ≡ some x
    → x.disabled ≡ false
    → holds privileged x.role ≡ false

-- Where each enabled account of a privileged role is stranded, a sweep that answers a count leaves none.
sweep-uncovers :
    (privileged : Roles) (now n : ℕ) (s : Store)
    → IsWellFormed s
    → AllPrivileged privileged (is_stranded now s) s
    → (delete_expired_tokens now s).0 ≡ ok n
    → NonePrivileged privileged (delete_expired_tokens now s).1
sweep-uncovers privileged now n s w all_stranded done k u found enabled =
    ground (arith, delete_expired_tokens-users now k n s w done, all_stranded k u)

-- A sweep answers a count where no error is forced.
answers_count :
    (now : ℕ) (s : Store)
    → s.faults.token_err ≡ none
    → (n : ℕ) × ((delete_expired_tokens now s).0 ≡ ok n)
unfolding delete_expired_tokens
answers_count now s calm = (Dict.count (token_expired now) s.tokens, ground arith)

module _ (privileged : Roles) (id other now : ℕ) (role : GoString) (s : Store) (u v : User) where
  -- The guard passes, as another account covers, activated or not.
  guard-passes :
      s.faults.set_role_err ≡ none
      → Dict.lookup id s.users ≡ some u
      → other ≢ id
      → Dict.lookup other s.users ≡ some v
      → v.disabled ≡ false
      → holds privileged v.role ≡ true
      → (set_user_role id role privileged s).0 ≡ ok tt
  unfolding set_user_role set_role refuse_uncovered
  guard-passes quiet held apart beside enabled given =
      ground (arith, Dict.lookup-any other v (covers_beside id privileged) s.users beside)

  -- The write leaves every account of a privileged role stranded that was.
  written-stranded :
      holds privileged role ≡ false
      → AllPrivileged privileged (λ k. k == id || is_stranded now s k) s
      → (set_user_role id role privileged s).0 ≡ ok tt
      → AllPrivileged privileged
          (is_stranded now (set_user_role id role privileged s).1)
          (set_user_role id role privileged s).1
  unfolding set_user_role holds_live_invite
  written-stranded lowers stranded done k x found enabled given =
      elim (set_role_cases id role privileged any_role s) [
        | inl (failed, _) ↦ absurd (ground arith)
        | inr (w, held, _, _, e) ↦ rw e (
            let at_k = Dict.lookup-insert k id (record w { role = role }) s.users in
            let now_found = rw e at found in
            elim (Bool-cases (k == id)) [
              | inl own ↦ absurd (ground arith)
              | inr apart ↦ ground (arith, stranded k x)
            ])
      ]

  -- The write forces no error on the sweep.
  written-faults : (set_user_role id role privileged s).1.faults ≡ s.faults
  unfolding set_user_role
  written-faults = elim (set_role_cases id role privileged any_role s) [
    | inl (_, e) ↦ rw e refl
    | inr (_, _, _, _, e) ↦ rw e refl
  ]

  -- The guard counts accounts that were never activated, and the sweep is not guarded. Take a
  -- well-formed store with an account, and another, enabled and of a privileged role, such that an
  -- expired invite strands each enabled account of such a role but the first. Then giving the first a
  -- role that is not privileged passes the guard, and after a sweep of the tokens no enabled account
  -- holds a privileged role. No error is forced.
  pub set_user_role-delete_expired_tokens :
      IsWellFormed s
      → s.faults.set_role_err ≡ none
      → s.faults.token_err ≡ none
      → Dict.lookup id s.users ≡ some u
      → holds privileged role ≡ false
      → other ≢ id
      → Dict.lookup other s.users ≡ some v
      → v.disabled ≡ false
      → holds privileged v.role ≡ true
      → AllPrivileged privileged (λ k. k == id || is_stranded now s k) s
      → ((set_user_role id role privileged s).0 ≡ ok tt)
        × NonePrivileged privileged
            (delete_expired_tokens now (set_user_role id role privileged s).1).1
  unfolding set_user_role step
  set_user_role-delete_expired_tokens w quiet calm held lowers apart beside enabled given stranded =
      let done = guard-passes quiet held apart beside enabled given in
      let (n, swept) =
        answers_count now (set_user_role id role privileged s).1 (rw written-faults calm) in
      (
        done,
        sweep-uncovers privileged now n (set_user_role id role privileged s).1
            (step-IsWellFormed (Call.set_user_role id role privileged) s w)
            (written-stranded lowers stranded done) swept,
      )

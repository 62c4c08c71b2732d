-- ===== src/Authkit/Administration.antt =====
-- What administration lets an actor do, over any store, and what it leaves of the store of testkit.
use gouncer.Base.{
  ℕ, ◌≡◌, refl, ◌≢◌, inl, inr, true, false, none, some, GoString, arith, if◌then◌else◌, ◌==◌,
  nat_eq, string_eq, Bool-cases, Option-cases,
}
use gouncer.Base.Dict
use gouncer.Core.Results.{Result, ok, Result-cases}
use gouncer.Core.Roles.{Roles}
use gouncer.Core.Platform.{Platform, Env}
use gouncer.Core.Types.{User}
use gouncer.Authkit.Stores.{AdminStore, RoleSource, declared}
use gouncer.Authkit.Instance.{admin_store}
use gouncer.Authkit.Admin.{
  Admin, editable, held_refusal, refuse_handout, without_roles, check_role_change, held_role,
  held_editable, role_change_held, set_account_role, set_account_role_from,
}
use gouncer.Testkit.State.{Store}
use gouncer.Testkit.Guard.{set_role, set_user_role, set_user_role_from, any_role, still_holds}
use gouncer.Testkit.Cases.{set_role_cases}

-- Under a role source, an actor may move an account to a role only if the source declares
-- the role, the actor's role outranks it, and the actor's role outranks the one that the account holds, if
-- that one is declared; and the role answered is the one that the store holds. It is so over any store.
pub role_change_held-ok :
    {S : Type 0} (platform : Platform) (store : AdminStore S) (a : Admin) (env : Env)
    (source : RoleSource) (actor : GoString) (id : ℕ) (role held : GoString) (s : S)
    → a.roles ≡ some source
    → (role_change_held platform store a env actor id role s).0 ≡ ok held
    → ((held_role platform store a env id s).0 ≡ ok held)
      × (declared (some source) role ≡ true)
      × (source.outranks actor role ≡ true)
      × (declared (some source) held ≡ true → source.outranks actor held ≡ true)
unfolding role_change_held held_editable held_refusal editable refuse_handout
role_change_held-ok platform store a env source actor id role held s sourced done =
    elim (Result-cases (held_role platform store a env id s).0) [
      | inl (e, lost) ↦ absurd (ground arith)
      | inr (h, found) ↦ (ground arith, ground arith, ground arith, λ known. ground arith)
    ]

-- The account, which was accepted, holds the role, and nothing else changed.
pub record Moves (id : ℕ) (role : GoString) (Accepted : User → Type 0) (s t : Store) : Type 0 where
  pub user : User
  pub found : Dict.lookup id s.users ≡ some user
  pub accepted : Accepted user
  pub users :
      (j : ℕ)
      → Dict.lookup j t.users
        ≡ (if j == id then some (record user { role = role }) else Dict.lookup j s.users)
  pub sessions : t.sessions ≡ s.sessions
  pub tokens : t.tokens ≡ s.tokens

set_role-Moves :
    (id : ℕ) (role : GoString) (privileged : Roles) (accepts : User → Result (Unit {0})) (s : Store)
    → (set_role id role privileged accepts s).0 ≡ ok tt
    → Moves id role (λ u. accepts u ≡ ok tt) s (set_role id role privileged accepts s).1
set_role-Moves id role privileged accepts s done =
    elim (set_role_cases id role privileged accepts s) [
      | inl (refused, _) ↦ absurd (ground arith)
      | inr (u, held, accepted, _, e) ↦ record {
        user = u;
        found = held;
        accepted = accepted;
        users = λ j. rw e (Dict.lookup-insert j id (record u { role = role }) s.users);
        sessions = rw e refl;
        tokens = rw e refl;
      }
    ]

weaken-Moves :
    {P Q : User → Type 0} (id : ℕ) (role : GoString) (s t : Store)
    → ((u : User) → P u → Q u)
    → Moves id role P s t
    → Moves id role Q s t
weaken-Moves id role s t f m = record {
  user = m.user;
  found = m.found;
  accepted = f m.user m.accepted;
  users = m.users;
  sessions = m.sessions;
  tokens = m.tokens;
}

still_holds-role : (held : GoString) (u : User) → still_holds held u ≡ ok tt → u.role ≡ held
still_holds-role held u h = ground arith

check_role_change-none :
    (a : Admin) (actor_id id : ℕ) (role : GoString)
    → check_role_change a actor_id id role ≡ none
    → (actor_id ≢ id) × (declared a.roles role ≡ true)
unfolding check_role_change
check_role_change-none a actor_id id role h = (λ e. ground arith, ground arith)

-- A role change that is not refused was made by another account, to a role that the source
-- declares, if there is one, and, under a source, of an account that still held the role the change was
-- checked against; that account holds the new role, and every other account, every session and every
-- token stays.
pub set_account_role_from-ok :
    (platform : Platform) (a : Admin) (env : Env) (actor_id id : ℕ) (held role : GoString)
    (s : Store)
    → (set_account_role_from platform (admin_store platform) a env actor_id id held role s).0
      ≡ ok tt
    → let t : Store =
        (set_account_role_from platform (admin_store platform) a env actor_id id held role s).1 in
      (actor_id ≢ id)
      × (declared a.roles role ≡ true)
      × Moves id role (λ u. without_roles a ≡ false → u.role ≡ held) s t
unfolding set_account_role_from set_account_role set_user_role set_user_role_from
set_account_role_from-ok platform a env actor_id id held role s done =
    elim (Option-cases (check_role_change a actor_id id role)) [
      | inr (e, refused) ↦ elim (Bool-cases (without_roles a)) [
        | inl free ↦ absurd (ground arith)
        | inr bound ↦ absurd (ground arith)
      ]
      | inl passed ↦
          let (other, known) = check_role_change-none a actor_id id role passed in
          (
            other,
            known,
            elim (Bool-cases (without_roles a)) [
              | inl free ↦ rw free (
                  rw passed (
                    weaken-Moves id role s _ (λ u _ bound. absurd (ground arith))
                      (set_role-Moves id role a.privileged any_role s (ground arith))))
              | inr bound ↦ rw bound (
                  rw passed (
                    weaken-Moves id role s _ (λ u h _. still_holds-role held u h)
                      (set_role-Moves id role a.privileged (still_holds held) s (ground arith))))
            ],
          )
    ]

-- ===== src/Sqlite/RolesSimulation.antt =====
-- The guard of the guarded writes, on the tables and on the store of testkit.
use gouncer.Base.{
  ℕ, zero, suc, ◌≡◌, refl, sym, ap, ◌∙◌, ◌⊎◌, inl, inr, Bool, true, false, not, ◌&&◌, ◌||◌, Option,
  none, some, List, [], ◌∷◌, GoString, arith, ◌==◌, nat_eq, string_eq, Bool-cases, All, contains,
  map, if◌then◌else◌,
}
use gouncer.Base.Dict
use gouncer.Core.Errors.{last_privileged}
use gouncer.Core.Results.{refuse_if, ◌>>=◌}
use gouncer.Core.Roles.{Roles, holds}
use gouncer.Core.Types.{User}
use gouncer.Sqlite.Rows.{Driver, AuthUser, Tables, statement, find_where, exists_where, count_where}
use gouncer.Sqlite.UserQueries
use gouncer.Sqlite.UserQueries.{has_id}
use gouncer.Sqlite.Users.{stored_user}
use gouncer.Sqlite.Roles
use gouncer.Sqlite.Roles.{is_zero, is_empty}
use gouncer.Sqlite.View.{any-index, count-find}
use gouncer.Sqlite.Keyed.{find-narrow, when}
use gouncer.Sqlite.Simulation.{calm, users_of, Simulates, ArePlain}
use gouncer.Sqlite.UsersSimulation.{lookup-row}
use gouncer.Testkit.State.{Store}
use gouncer.Testkit.Guard.{privileged_at, covers_beside}
use gouncer.Testkit.WellFormed.{IsWellFormed}

-- Plain roles are read as they were written.
map-plain : (f : GoString → GoString) (l : Roles) → All (λ r. f r ≡ r) l → map f l ≡ l
map-plain f [] h = refl
map-plain f (r ∷ rs) (h, hs) = rw h (rw (map-plain f rs hs) refl)

holds-plain : (l : Roles) (r : GoString) → contains l [] ≡ false → holds l r ≡ contains l r
unfolding holds
holds-plain l r h = elim (Bool-cases (r == [])) [
  | inl empty ↦ let none_there : r ≡ [] = ground arith in ground arith
  | inr named ↦ ground arith
]

-- A count of rows is 0 where no row passes.
zero-exists :
    {A : Type 0} (d : Driver) (p : A → Bool) (rs : List A)
    → is_zero d (count_where p rs) ≡ not (exists_where p rs)
unfolding count_where exists_where
zero-exists d p [] = refl
zero-exists d p (r ∷ rs) = ground (arith, zero-exists d p rs)

-- No account is privileged by an empty set.
privileged_at-nobody : (o : Option User) → privileged_at [] o ≡ false
unfolding holds contains gouncer.Base.string_dec
privileged_at-nobody none = refl
privileged_at-nobody (some u) = ground arith

module _ (d : Driver) (t : Tables) (s : Store) (sim : Simulates d t s) (wf : IsWellFormed s) where
  pub users-nodup : Dict.NodupKeys (users_of d t)
  users-nodup = rw sim.users at wf.users_keyed.nodup

  -- An account is a row, once, or neither is there.
  pub account_cases :
      (id : ℕ)
      → ((find_where (has_id id) t.users ≡ none)
          × (count_where (has_id id) t.users ≡ 0)
          × (Dict.lookup id s.users ≡ none))
        ⊎ ((r : AuthUser) × (n : ℕ) × (find_where (has_id id) t.users ≡ some r)
            × (count_where (has_id id) t.users ≡ suc n)
            × (Dict.lookup id s.users ≡ some (stored_user d r)))
  account_cases id = elim (count-find (has_id id) t.users) [
    | inl (missing, zero_rows) ↦ inl (missing, zero_rows, lookup-row d t s sim id ∙ rw missing refl)
    | inr (r, n, found, rows) ↦ inr (r, n, found, rows, lookup-row d t s sim id ∙ rw found refl)
  ]

  -- The row of an id that passes a test beside the id.
  pub find-user :
      (id : ℕ) (q : AuthUser → Bool)
      → find_where (λ u. has_id id u && q u) t.users ≡ when q (find_where (has_id id) t.users)
  find-user id q =
      find-narrow (λ (r : AuthUser). r.id) (stored_user d) id (has_id id) q t.users
        (λ r. ground arith) users-nodup

  refuse_last-calm :
      (id : ℕ) (privileged : Roles) (n : ℕ)
      → contains privileged [] ≡ false
      → Roles.refuse_last d privileged id (suc n) (calm t)
        ≡ refuse_if (not (Dict.any (covers_beside id privileged) s.users)) last_privileged (calm t)
  refuse_last-calm id privileged n plain =
      let p : AuthUser → Bool =
        λ u. contains privileged u.role && (not u.disabled && not (has_id id u)) in
      let same : (r : AuthUser) → covers_beside id privileged r.id (stored_user d r) ≡ p r =
        λ r. ground (arith, holds-plain privileged r.role plain) in
      let cover : Dict.any (covers_beside id privileged) s.users ≡ exists_where p t.users =
        rw sim.users (
          any-index (λ (r : AuthUser). r.id) (stored_user d) (covers_beside id privileged) p t.users
            same) in
      unfold Roles.refuse_last in
      unfold UserQueries.count_cover in
      unfold statement in rw (zero-exists d p t.users) (rw cover refl)

  -- The guard of a set of roles that is not empty.
  held_then_last-calm :
      (id : ℕ) (roles : Roles)
      → contains roles [] ≡ false
      → (UserQueries.holds_privilege id roles >>= Roles.refuse_last d roles id) (calm t)
        ≡ refuse_if
            (privileged_at roles (Dict.lookup id s.users)
              && not (Dict.any (covers_beside id roles) s.users))
            last_privileged
            (calm t)
  unfolding UserQueries.holds_privilege statement
  held_then_last-calm id roles filled =
      let q : AuthUser → Bool = λ u. contains roles u.role && not u.disabled in
      let one = find-user id q in
      let last = refuse_last-calm id roles in
      elim (count-find (λ u. has_id id u && q u) t.users) [
        | inl (unheld, zero_rows) ↦ rw zero_rows (elim (account_cases id) [
          | inl (missing, none_there, absent) ↦
              rw absent
                (rw (holds-plain roles [] filled) (rw filled (unfold Roles.refuse_last in refl)))
          | inr (r, n, found, some_there, present) ↦
              rw present
                (unfold Roles.refuse_last in ground (arith, holds-plain roles r.role filled))
        ])
        | inr (x, m, held, some_rows) ↦ rw some_rows (elim (account_cases id) [
          | inl (missing, none_there, absent) ↦ absurd (ground arith)
          | inr (r, n, found, some_there, present) ↦ rw present (
              rw (last m filled) (
                ap (λ b. refuse_if b last_privileged (calm t))
                  (ground (arith, holds-plain roles r.role filled))))
        ])
      ]

  -- The guard refuses on the tables exactly when it does on the store.
  pub refuse_uncovered-calm :
      (id : ℕ) (privileged : Roles) (removes : Bool)
      → ArePlain d privileged
      → Roles.refuse_uncovered d id privileged removes (calm t)
        ≡ refuse_if
            ((removes && privileged_at privileged (Dict.lookup id s.users))
              && not (Dict.any (covers_beside id privileged) s.users))
            last_privileged
            (calm t)
  unfolding Roles.refuse_uncovered
  refuse_uncovered-calm id [] removes plain =
      rw (privileged_at-nobody (Dict.lookup id s.users))
        (elim (Bool-cases removes) [ inl h ↦ rw h refl | inr h ↦ rw h refl ])
  refuse_uncovered-calm id (x ∷ xs) false plain = refl
  refuse_uncovered-calm id (x ∷ xs) true (written, filled) =
      ap (λ roles. (UserQueries.holds_privilege id roles >>= Roles.refuse_last d roles id) (calm t))
        (map-plain d.through_json (x ∷ xs) written)
      ∙ held_then_last-calm id (x ∷ xs) filled

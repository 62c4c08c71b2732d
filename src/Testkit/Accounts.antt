-- ===== src/Testkit/Accounts.antt =====
-- The methods that create, read and list accounts.
use gouncer.Base.{
  ℕ, ◌==◌, Bool, true, false, ◌&&◌, ◌||◌, none, some, List, [], ◌∷◌, GoString, nat_eq, string_eq,
  if◌then◌else◌, map, ltb,
}
use gouncer.Base.Dict
use gouncer.Core.Errors.{email_taken, user_not_found, setup_done, empty_role}
use gouncer.Core.Results.{M, ◌>>=◌, ◌>>◌, pure, lift, or_fail, refuse_if, forced}
use gouncer.Core.Types.{User}
use gouncer.Testkit.State.{Store, update, fields}

-- Whether two accounts hold one email.
abbrev pub has_email : GoString → ℕ → User → Bool
has_email email _ u = u.email == email

abbrev pub put_user : ℕ → User → Store → Store
put_user id u s = record s { users = Dict.insert id u s.users }

-- `CreateUser`
unfoldable pub create_user : User → M Store (Unit {0})
create_user u = do
  s ← fields
  forced s.faults.create_user_err
  refuse_if (Dict.any (has_email u.email) s.users) email_taken
  update (put_user u.id u)

abbrev pub is_nonempty {ℓ} : {A : Type ℓ} → List A → Bool
is_nonempty [] = false
is_nonempty (_ ∷ _) = true

-- `HasUsers`
unfoldable pub has_users : M Store Bool
has_users = do s ← fields; forced s.faults.lookup_err; pure (is_nonempty s.users)

-- `CreateFirstUser`
unfoldable pub create_first_user : User → M Store (Unit {0})
create_first_user u = do
  s ← fields
  forced s.faults.create_user_err
  refuse_if (is_nonempty s.users) setup_done
  update (put_user u.id u)

-- `UserByEmail`
unfoldable pub user_by_email : GoString → M Store User
user_by_email email = do
  s ← fields
  forced s.faults.lookup_err
  lift (or_fail (Dict.find (has_email email) s.users) user_not_found)

-- `UserByID`
unfoldable pub user_by_id : ℕ → M Store User
user_by_id id = do
  s ← fields
  forced s.faults.lookup_err
  lift (or_fail (Dict.lookup id s.users) user_not_found)

abbrev stripped : User → User
stripped u = record u { password_hash = [] }

-- The accounts that the ids name, each at its id.
held_of : Dict.Dict ℕ User → List ℕ → Dict.Dict ℕ User → Dict.Dict ℕ User
held_of users [] held = held
held_of users (id ∷ ids) held =
    held_of users ids
      (elim (Dict.lookup id users) [ none ↦ held | some u ↦ Dict.insert id (stripped u) held ])

-- `UsersByIDs`
unfoldable pub users_by_ids : List ℕ → M Store (List User)
unfolding held_of
users_by_ids ids = do
  s ← fields
  forced s.faults.lookup_err
  pure (Dict.values (held_of s.users ids []))

-- `strings.Compare`, as whether the first text comes before the second one.
before : GoString → GoString → Bool
before [] [] = false
before [] (y ∷ ys) = true
before (x ∷ xs) [] = false
before (x ∷ xs) (y ∷ ys) = ltb x y || (x == y && before xs ys)

-- The order of the listing: by name in lower case, then by id. An id's text orders as its number.
listed_before : (GoString → GoString) → User → User → Bool
unfolding before
listed_before lower a b =
    before (lower a.name) (lower b.name) || (lower a.name == lower b.name && ltb a.id b.id)

place : (User → User → Bool) → User → List User → List User
place first u [] = u ∷ []
place first u (v ∷ vs) = let rest = place first u vs in if first v u then v ∷ rest else u ∷ v ∷ vs

-- `slices.SortFunc`
sort_users : (User → User → Bool) → List User → List User
unfolding place
sort_users first [] = []
sort_users first (u ∷ us) = place first u (sort_users first us)

-- `ListUsers`, where `lower` is `strings.ToLower`
unfoldable pub list_users : (GoString → GoString) → M Store (List User)
unfolding sort_users listed_before
list_users lower = do
  s ← fields
  forced s.faults.list_users_err
  pure (map stripped (sort_users (listed_before lower) (Dict.values s.users)))

abbrev pub is_roleless : ℕ → User → Bool
is_roleless _ u = u.role == []

abbrev pub grant_to : GoString → User → User
grant_to role u = if u.role == [] then record u { role = role } else u

-- `GrantRoleToRoleless`
unfoldable pub grant_role_to_roleless : GoString → M Store ℕ
grant_role_to_roleless role = do
  s ← fields
  refuse_if (role == []) empty_role
  update (λ t. record t { users = Dict.map_values (grant_to role) t.users })
  pure (Dict.count is_roleless s.users)

-- ===== src/Sqlite/Rows.antt =====
-- The tables that the migration of authkit/sqlite creates, internal/db/models.go, and what a SQL
-- statement does to a table. A statement can fail for a reason outside of the program.
use gouncer.Base.{
  ℕ, suc, ◌≡◌, Bool, true, false, Option, none, some, List, [], ◌∷◌, GoString, ltb, if◌then◌else◌,
}
use gouncer.Core.Errors.{Error, foreign}
use gouncer.Core.Results.{M, Result, ok, err}

-- What the module dbkit and the SQLite driver do. A time is kept as a number in a column and read
-- back; the read times are ordered as their columns are. `is_unique` is `errors.Is` of the classified
-- error with `dbkit.ErrUnique`, `classify` is `dbsqlite.Classify`, and `through_json` is a text that
-- encoding/json has written and `json_each` has read.
pub record Driver : Type 0 where
  pub to_column : ℕ → ℕ
  pub from_column : ℕ → ℕ
  pub through_json : GoString → GoString
  pub classify : Error → Error
  pub is_unique : Error → Bool
  pub ordered : (a b : ℕ) → ltb (from_column a) (from_column b) ≡ ltb a b
  pub unique_known : is_unique (foreign 100) ≡ true

-- The driver's errors for a row that a constraint refuses.
abbrev pub unique_violation : Error
unique_violation = foreign 100

abbrev pub foreign_key_violation : Error
foreign_key_violation = foreign 101

-- `AuthUser`
pub record AuthUser : Type 0 where
  pub id : ℕ
  pub email : GoString
  pub name : GoString
  pub password_hash : GoString
  pub disabled : Bool
  pub created_at : ℕ
  pub role : GoString
  pub confirmed : Bool

-- `AuthSession`
pub record AuthSession : Type 0 where
  pub token_hash : GoString
  pub user_id : ℕ
  pub created_at : ℕ
  pub expires_at : ℕ

-- `AuthToken`
pub record AuthToken : Type 0 where
  pub token_hash : GoString
  pub user_id : ℕ
  pub purpose : GoString
  pub created_at : ℕ
  pub expires_at : ℕ

pub record Tables : Type 0 where
  pub users : List AuthUser
  pub sessions : List AuthSession
  pub tokens : List AuthToken

-- The tables, and what befalls the next statements: the errors that some of them fail with. Where the
-- list ends, they run.
pub record Database : Type 0 where
  pub tables : Tables
  pub trouble : List (Option Error)

-- A statement: it fails, or it answers and changes the tables.
unfoldable pub statement : {A : Type 0} → (Tables → Result A × Tables) → M Database A
statement f db = elim db.trouble [
  | [] ↦ let (answer, t) = f db.tables in (answer, record { tables = t; trouble = [] })
  | some e ∷ later ↦ (err e, record { tables = db.tables; trouble = later })
  | none ∷ later ↦ let (answer, t) = f db.tables in (answer, record { tables = t; trouble = later })
]

-- A statement that reads.
abbrev pub reading : {A : Type 0} → (Tables → A) → Tables → Result A × Tables
reading f t = (ok (f t), t)

module _ {A : Type 0} where
  -- `DELETE ... WHERE`
  unfoldable pub delete_where : (A → Bool) → List A → List A
  delete_where p [] = []
  delete_where p (r ∷ rs) = let rest = delete_where p rs in if p r then rest else r ∷ rest

  -- `UPDATE ... SET ... WHERE`
  unfoldable pub update_where : (A → Bool) → (A → A) → List A → List A
  update_where p f [] = []
  update_where p f (r ∷ rs) = let rest = update_where p f rs in if p r then f r ∷ rest else r ∷ rest

  -- `SELECT count(*) ... WHERE`, and the rows that a change affects
  unfoldable pub count_where : (A → Bool) → List A → ℕ
  count_where p [] = 0
  count_where p (r ∷ rs) = let rest = count_where p rs in if p r then suc rest else rest

  -- The first row of `SELECT ... WHERE`
  unfoldable pub find_where : (A → Bool) → List A → Option A
  find_where p [] = none
  find_where p (r ∷ rs) = let rest = find_where p rs in if p r then some r else rest

  -- Every row of `SELECT ... WHERE`
  unfoldable pub select_where : (A → Bool) → List A → List A
  select_where p [] = []
  select_where p (r ∷ rs) = let rest = select_where p rs in if p r then r ∷ rest else rest

  -- Whether `EXISTS (SELECT 1 ... WHERE)` holds
  unfoldable pub exists_where : (A → Bool) → List A → Bool
  exists_where p [] = false
  exists_where p (r ∷ rs) = let rest = exists_where p rs in if p r then true else rest

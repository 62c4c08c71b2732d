-- ===== src/Sqlite/View.antt =====
-- Rows of a table as the Go map that testkit keeps of them, and a statement on the rows as what testkit
-- does to the map.
use gouncer.Base.{
  ℕ, suc, ◌≡◌, refl, ◌⊎◌, inl, inr, Bool, true, false, Option, none, some, List, [], ◌∷◌, ◌++◌,
  arith, Eq, ◌==◌, Bool-cases,
}
use gouncer.Base.Dict
use gouncer.Sqlite.Rows.{delete_where, update_where, count_where, find_where, exists_where}

abbrev pub map_option {ℓ κ} : {A : Type ℓ} {B : Type κ} → (A → B) → Option A → Option B
map_option f none = none
map_option f (some a) = some (f a)

module _ {A : Type 0} where
  pub count-find :
      (p : A → Bool) (rs : List A)
      → ((find_where p rs ≡ none) × (count_where p rs ≡ 0))
        ⊎ ((r : A) × (n : ℕ) × (find_where p rs ≡ some r) × (count_where p rs ≡ suc n))
  unfolding find_where count_where
  count-find p [] = inl (refl, refl)
  count-find p (r ∷ rs) = elim (Bool-cases (p r)) [
    | inl hit ↦ inr (r, count_where p rs, ground arith, ground arith)
    | inr miss ↦ elim (count-find p rs) [
      | inl (missing, zero_rows) ↦ inl (ground arith, ground arith)
      | inr (s, n, found, rows) ↦ inr (s, n, ground arith, ground arith)
    ]
  ]

  pub find_where-holds :
      (p : A → Bool) (rs : List A) (r : A) → find_where p rs ≡ some r → p r ≡ true
  unfolding find_where
  find_where-holds p [] r h = absurd (ground arith)
  find_where-holds p (s ∷ rs) r h = ground (arith, find_where-holds p rs r)

module _ {K : Type 0} {V A : Type 0} ⦃e : Eq K⦄ (key : A → K) (val : A → V) where
  abbrev pub index : List A → Dict.Dict K V
  index [] = []
  index (r ∷ rs) = (key r, val r) ∷ index rs

  pub delete_func-index :
      (q : K → V → Bool) (p : A → Bool) (rs : List A)
      → ((r : A) → q (key r) (val r) ≡ p r)
      → Dict.delete_func q (index rs) ≡ index (delete_where p rs)
  unfolding Dict.delete_func delete_where
  delete_func-index q p [] same = refl
  delete_func-index q p (r ∷ rs) same = ground (arith, same r, delete_func-index q p rs same)

  pub count-index :
      (q : K → V → Bool) (p : A → Bool) (rs : List A)
      → ((r : A) → q (key r) (val r) ≡ p r)
      → Dict.count q (index rs) ≡ count_where p rs
  unfolding Dict.count count_where
  count-index q p [] same = refl
  count-index q p (r ∷ rs) same = ground (arith, same r, count-index q p rs same)

  pub any-index :
      (q : K → V → Bool) (p : A → Bool) (rs : List A)
      → ((r : A) → q (key r) (val r) ≡ p r)
      → Dict.any q (index rs) ≡ exists_where p rs
  unfolding Dict.any exists_where
  any-index q p [] same = refl
  any-index q p (r ∷ rs) same = ground (arith, same r, any-index q p rs same)

  pub lookup-index :
      (k : K) (p : A → Bool) (rs : List A)
      → ((r : A) → (k == key r) ≡ p r)
      → Dict.lookup k (index rs) ≡ map_option val (find_where p rs)
  unfolding Dict.lookup find_where
  lookup-index k p [] same = refl
  lookup-index k p (r ∷ rs) same = ground (arith, same r, lookup-index k p rs same)

  pub insert-index :
      (r : A) (rs : List A)
      → Dict.lookup (key r) (index rs) ≡ none
      → Dict.insert (key r) (val r) (index rs) ≡ index (rs ++ r ∷ [])
  unfolding Dict.lookup Dict.insert
  insert-index r [] fresh = refl
  insert-index r (s ∷ rs) fresh = ground (arith, insert-index r rs)

  -- A key that a map does not hold is written by no row.
  update-absent :
      (k : K) (g : A → A) (p : A → Bool) (rs : List A)
      → ((r : A) → (k == key r) ≡ p r)
      → Dict.lookup k (index rs) ≡ none
      → update_where p g rs ≡ rs
  unfolding Dict.lookup update_where
  update-absent k g p [] same absent = refl
  update-absent k g p (r ∷ rs) same absent = ground (arith, same r, update-absent k g p rs same)

  pub update-index :
      (k : K) (v w : V) (g : A → A) (p : A → Bool) (rs : List A)
      → ((r : A) → (k == key r) ≡ p r)
      → ((r : A) → key (g r) ≡ key r)
      → ((r : A) → val r ≡ v → val (g r) ≡ w)
      → Dict.NodupKeys (index rs)
      → Dict.lookup k (index rs) ≡ some v
      → Dict.insert k w (index rs) ≡ index (update_where p g rs)
  unfolding Dict.lookup Dict.insert update_where
  update-index k v w g p [] same keyed valued nodup found = absurd (ground arith)
  update-index k v w g p (r ∷ rs) same keyed valued (fresh, nodup) found =
      elim (Bool-cases (k == key r)) [
        | inl hit ↦
            let at_key : k ≡ key r = ground arith in
            let rest = update-absent k g p rs same (rw at_key fresh) in
            ground (arith, same r, keyed r, valued r)
        | inr miss ↦ ground (arith, same r, update-index k v w g p rs same keyed valued nodup)
      ]

  pub map_values-index :
      (f : V → V) (g : A → A) (p : A → Bool) (rs : List A)
      → ((r : A) → key (g r) ≡ key r)
      → ((r : A) → p r ≡ true → val (g r) ≡ f (val r))
      → ((r : A) → p r ≡ false → val r ≡ f (val r))
      → Dict.map_values f (index rs) ≡ index (update_where p g rs)
  unfolding Dict.map_values update_where
  map_values-index f g p [] keyed hits misses = refl
  map_values-index f g p (r ∷ rs) keyed hits misses =
      ground (arith, keyed r, hits r, misses r, map_values-index f g p rs keyed hits misses)

-- ===== src/Base/Dict.antt =====
-- Go maps, as association lists in some order of iteration. Proofs elsewhere go by the laws; only
-- tests unfold the operations.
use gouncer.Base.{
  ℕ, suc, ◌+◌, length, ◌≤◌, ◌≡◌, refl, Bool, true, false, Option, none, some, List, [], ◌∷◌, arith,
  if◌then◌else◌, Eq, ◌==◌, Bool-cases, inl, inr,
}

abbrev pub Dict {ℓ κ} : Type ℓ → Type κ → Type (ℓ ⊔ κ)
Dict K V = List (K × V)

module _ {ℓ κ} {K : Type ℓ} {V : Type κ} where
  -- `maps.DeleteFunc`
  unfoldable pub delete_func : (K → V → Bool) → Dict K V → Dict K V
  delete_func p [] = []
  delete_func p ((j, w) ∷ d) = let rest = delete_func p d in if p j w then rest else (j, w) ∷ rest

  -- A loop over the entries that returns the first value that passes a test.
  unfoldable pub find : (K → V → Bool) → Dict K V → Option V
  find p [] = none
  find p ((j, w) ∷ d) = let rest = find p d in if p j w then some w else rest

  -- A loop over the entries that stops when one passes a test.
  unfoldable pub any : (K → V → Bool) → Dict K V → Bool
  any p [] = false
  any p ((j, w) ∷ d) = let rest = any p d in if p j w then true else rest

  -- A loop over the entries that counts those which pass a test.
  unfoldable pub count : (K → V → Bool) → Dict K V → ℕ
  count p [] = 0
  count p ((j, w) ∷ d) = let rest = count p d in if p j w then suc rest else rest

  -- A loop over the entries that stores a new value at each key.
  unfoldable pub map_values : (V → V) → Dict K V → Dict K V
  map_values f [] = []
  map_values f ((j, w) ∷ d) = (j, f w) ∷ map_values f d

  unfoldable pub values : Dict K V → List V
  values [] = []
  values ((j, w) ∷ d) = w ∷ values d

module _ {ℓ κ} {K : Type ℓ} {V : Type κ} ⦃e : Eq K⦄ where
  -- `d[k]`
  unfoldable pub lookup : K → Dict K V → Option V
  lookup k [] = none
  lookup k ((j, v) ∷ d) = if k == j then some v else lookup k d

  -- `d[k] = v`
  unfoldable pub insert : K → V → Dict K V → Dict K V
  insert k v [] = (k, v) ∷ []
  insert k v ((j, w) ∷ d) = if k == j then (k, v) ∷ d else (j, w) ∷ insert k v d

  -- `delete(d, k)`
  unfoldable pub delete : K → Dict K V → Dict K V
  unfolding delete_func
  delete k = delete_func (λ j _. k == j)

  abbrev pub NodupKeys : Dict K V → Type κ
  NodupKeys [] = Unit
  NodupKeys ((k, _) ∷ d) = (lookup k d ≡ none) × NodupKeys d

  pub lookup-nil : (k : K) → lookup k [] ≡ none
  unfolding lookup
  lookup-nil k = refl

  pub lookup-cons :
      (j k : K) (v : V) (d : Dict K V)
      → lookup j ((k, v) ∷ d) ≡ (if j == k then some v else lookup j d)
  unfolding lookup
  lookup-cons j k v d = refl

  pub lookup-insert :
      (j k : K) (v : V) (d : Dict K V)
      → lookup j (insert k v d) ≡ (if j == k then some v else lookup j d)
  unfolding insert lookup
  lookup-insert j k v [] = refl
  lookup-insert j k v (_ ∷ d) = ground (arith, lookup-insert j k v d)

  pub insert-NodupKeys : (k : K) (v : V) (d : Dict K V) → NodupKeys d → NodupKeys (insert k v d)
  unfolding insert
  insert-NodupKeys k v [] _ = (lookup-nil k, tt)
  insert-NodupKeys k v ((j, _) ∷ d) (fresh, u) =
      ground (arith, insert-NodupKeys k v d u, lookup-insert j k v d)

  -- What an entry becomes when those that pass a test go.
  abbrev pub unless : (K → V → Bool) → K → Option V → Option V
  unless p k none = none
  unless p k (some v) = if p k v then none else some v

  pub lookup-delete_func :
      (j : K) (p : K → V → Bool) (d : Dict K V)
      → NodupKeys d
      → lookup j (delete_func p d) ≡ unless p j (lookup j d)
  unfolding delete_func lookup
  lookup-delete_func j p [] _ = refl
  lookup-delete_func j p ((k, w) ∷ d) (fresh, u) = ground (arith, lookup-delete_func j p d u)

  pub lookup-delete_func_absent :
      (j : K) (p : K → V → Bool) (d : Dict K V)
      → lookup j d ≡ none
      → lookup j (delete_func p d) ≡ none
  unfolding delete_func lookup
  lookup-delete_func_absent j p [] _ = refl
  lookup-delete_func_absent j p ((k, w) ∷ d) h = ground (arith, lookup-delete_func_absent j p d)

  pub delete_func-NodupKeys :
      (p : K → V → Bool) (d : Dict K V) → NodupKeys d → NodupKeys (delete_func p d)
  unfolding delete_func
  delete_func-NodupKeys p [] _ = tt
  delete_func-NodupKeys p ((j, w) ∷ d) (fresh, u) =
      ground (arith, delete_func-NodupKeys p d u, lookup-delete_func_absent j p d fresh)

  pub lookup-delete :
      (j k : K) (d : Dict K V)
      → NodupKeys d
      → lookup j (delete k d) ≡ (if j == k then none else lookup j d)
  unfolding delete
  lookup-delete j k d u = ground (arith, lookup-delete_func j (λ i _. k == i) d u)

  pub delete-NodupKeys : (k : K) (d : Dict K V) → NodupKeys d → NodupKeys (delete k d)
  unfolding delete
  delete-NodupKeys k d u = delete_func-NodupKeys (λ i _. k == i) d u

  pub lookup-map_values :
      (j : K) (f : V → V) (d : Dict K V)
      → lookup j (map_values f d) ≡ elim (lookup j d) [ none ↦ none | some v ↦ some (f v) ]
  unfolding map_values lookup
  lookup-map_values j f [] = refl
  lookup-map_values j f ((k, w) ∷ d) = ground (arith, lookup-map_values j f d)

  pub map_values-NodupKeys : (f : V → V) (d : Dict K V) → NodupKeys d → NodupKeys (map_values f d)
  unfolding map_values
  map_values-NodupKeys f [] _ = tt
  map_values-NodupKeys f ((j, w) ∷ d) (fresh, u) =
      (ground (arith, lookup-map_values j f d), map_values-NodupKeys f d u)

  -- A loop that stops has met an entry of the map.
  pub any-lookup :
      (p : K → V → Bool) (d : Dict K V)
      → NodupKeys d
      → any p d ≡ true
      → (k : K) × (v : V) × (lookup k d ≡ some v) × (p k v ≡ true)
  unfolding any lookup
  any-lookup p [] _ h = cc
  any-lookup p ((j, w) ∷ d) (fresh, u) h = elim (Bool-cases (p j w)) [
    | inl hit ↦ (j, w, ground arith, hit)
    | inr miss ↦
        let (k, v, found, passes) = any-lookup p d u (ground arith) in (k, v, ground arith, passes)
  ]

  pub lookup-any :
      (k : K) (v : V) (p : K → V → Bool) (d : Dict K V)
      → lookup k d ≡ some v
      → p k v ≡ true
      → any p d ≡ true
  unfolding any lookup
  lookup-any k v p [] h _ = cc
  lookup-any k v p ((j, w) ∷ d) h passes = ground (arith, lookup-any k v p d)

  pub find-lookup :
      (p : K → V → Bool) (v : V) (d : Dict K V)
      → NodupKeys d
      → find p d ≡ some v
      → (k : K) × (lookup k d ≡ some v) × (p k v ≡ true)
  unfolding find lookup
  find-lookup p v [] _ h = cc
  find-lookup p v ((j, w) ∷ d) (fresh, u) h = elim (Bool-cases (p j w)) [
    | inl hit ↦ (j, ground arith, ground arith)
    | inr miss ↦
        let (k, found, passes) = find-lookup p v d u (ground arith) in (k, ground arith, passes)
  ]

  pub lookup-find-none :
      (k : K) (v : V) (p : K → V → Bool) (d : Dict K V)
      → lookup k d ≡ some v
      → find p d ≡ none
      → p k v ≡ false
  unfolding find lookup
  lookup-find-none k v p [] h _ = cc
  lookup-find-none k v p ((j, w) ∷ d) h missed = ground (arith, lookup-find-none k v p d)

  -- Every entry of the first map is one of the second.
  abbrev pub Shrinks : Dict K V → Dict K V → Type (ℓ ⊔ κ)
  Shrinks d c = (k : K) (v : V) → lookup k d ≡ some v → lookup k c ≡ some v

  pub delete_func-Shrinks :
      (p : K → V → Bool) (d : Dict K V) → NodupKeys d → Shrinks (delete_func p d) d
  delete_func-Shrinks p d u k v h = ground (arith, lookup-delete_func k p d u)

  -- What is left of a deletion fails its test.
  pub delete_func-fails :
      (p : K → V → Bool) (d : Dict K V) (k : K) (v : V)
      → NodupKeys d
      → lookup k (delete_func p d) ≡ some v
      → p k v ≡ false
  delete_func-fails p d k v u h = ground (arith, lookup-delete_func k p d u)

  -- An entry of a map whose values were rewritten was an entry before.
  pub map_values-lookup :
      (j : K) (f : V → V) (w : V) (d : Dict K V)
      → lookup j (map_values f d) ≡ some w
      → (v : V) × (lookup j d ≡ some v) × (w ≡ f v)
  unfolding map_values lookup
  map_values-lookup j f w [] h = cc
  map_values-lookup j f w ((k, x) ∷ d) h = elim (Bool-cases (j == k)) [
    | inl hit ↦ (x, ground arith, ground arith)
    | inr miss ↦
        let (v, found, same) = map_values-lookup j f w d (ground arith) in (v, ground arith, same)
  ]

  pub count-insert-le :
      (p : K → V → Bool) (k : K) (v : V) (d : Dict K V) → count p (insert k v d) ≤ suc (count p d)
  unfolding count insert
  count-insert-le p k v [] = ground arith
  count-insert-le p k v ((j, w) ∷ d) = ground (arith, count-insert-le p k v d)

  -- A deletion that spares what a test accepts leaves the test's answer.
  pub any-delete_func :
      (p q : K → V → Bool) (d : Dict K V)
      → ((k : K) (v : V) → p k v ≡ true → q k v ≡ false)
      → any p (delete_func q d) ≡ any p d
  unfolding any delete_func
  any-delete_func p q [] spares = refl
  any-delete_func p q ((j, w) ∷ d) spares = ground (arith, any-delete_func p q d spares, spares j w)

  -- What is deleted and what is left make up the map.
  pub length-delete_func :
      (p : K → V → Bool) (d : Dict K V) → length d ≡ length (delete_func p d) + count p d
  unfolding delete_func count
  length-delete_func p [] = refl
  length-delete_func p ((j, w) ∷ d) = ground (arith, length-delete_func p d)

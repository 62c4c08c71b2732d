-- ===== src/Sqlite/Keyed.antt =====
-- Rows that a key tells apart, and transactions on tables where no statement fails.
use gouncer.Base.{
  ◌≡◌, refl, Bool, inl, inr, true, ◌&&◌, Option, none, some, List, [], ◌∷◌, arith, Eq, ◌==◌,
  Bool-cases, if◌then◌else◌,
}
use gouncer.Base.Dict
use gouncer.Core.Errors.{Error}
use gouncer.Core.Results.{M, ok, err}
use gouncer.Sqlite.Rows.{Driver, Tables, Database, statement, find_where, update_where}
use gouncer.Sqlite.Users.{in_tx, ended, signal, is_sentinel}
use gouncer.Sqlite.Simulation.{calm}
use gouncer.Sqlite.View.{index}

abbrev pub when : {A : Type 0} → (A → Bool) → Option A → Option A
when q none = none
when q (some r) = if q r then some r else none

pub when-ext :
    {A : Type 0} (p q : A → Bool) → ((r : A) → p r ≡ q r) → (o : Option A) → when p o ≡ when q o
when-ext p q same none = refl
when-ext p q same (some r) = rw (same r) refl

module _ {K : Type 0} {V A : Type 0} ⦃e : Eq K⦄ (key : A → K) (val : A → V) (k : K)
    (p q : A → Bool) where
  find-absent :
      (rs : List A)
      → ((r : A) → (k == key r) ≡ p r)
      → Dict.lookup k (index key val rs) ≡ none
      → find_where (λ r. p r && q r) rs ≡ none
  unfolding Dict.lookup find_where
  find-absent [] same absent = refl
  find-absent (r ∷ rs) same absent = ground (arith, same r, find-absent rs same)

  -- A test beside the key keeps the row of the key or drops it.
  pub find-narrow :
      (rs : List A)
      → ((r : A) → (k == key r) ≡ p r)
      → Dict.NodupKeys (index key val rs)
      → find_where (λ r. p r && q r) rs ≡ when q (find_where p rs)
  unfolding find_where
  find-narrow [] same nodup = refl
  find-narrow (r ∷ rs) same (fresh, nodup) = elim (Bool-cases (k == key r)) [
    | inl hit ↦
        let at_key : k ≡ key r = ground arith in
        let rest = find-absent rs same (rw at_key fresh) in ground (arith, same r)
    | inr miss ↦ ground (arith, same r, find-narrow rs same nodup)
  ]

  update-absent :
      (g : A → A) (rs : List A)
      → ((r : A) → (k == key r) ≡ p r)
      → Dict.lookup k (index key val rs) ≡ none
      → update_where (λ r. p r && q r) g rs ≡ update_where p g rs
  unfolding Dict.lookup update_where
  update-absent g [] same absent = refl
  update-absent g (r ∷ rs) same absent = ground (arith, same r, update-absent g rs same)

  pub update-narrow :
      (g : A → A) (r : A) (rs : List A)
      → ((r : A) → (k == key r) ≡ p r)
      → Dict.NodupKeys (index key val rs)
      → find_where p rs ≡ some r
      → q r ≡ true
      → update_where (λ r. p r && q r) g rs ≡ update_where p g rs
  unfolding find_where update_where
  update-narrow g x [] same nodup found passes = refl
  update-narrow g x (r ∷ rs) same (fresh, nodup) found passes = elim (Bool-cases (k == key r)) [
    | inl hit ↦
        let at_key : k ≡ key r = ground arith in
        let rest = update-absent g rs same (rw at_key fresh) in ground (arith, same r)
    | inr miss ↦ ground (arith, same r, update-narrow g x rs same nodup)
  ]

module _ {A : Type 0} (d : Driver) (body : M Database A) (t : Tables) where
  pub in_tx-ok :
      (a : A) (u : Tables) → body (calm t) ≡ (ok a, calm u) → in_tx d body (calm t) ≡ (ok a, calm u)
  unfolding in_tx signal statement ended
  in_tx-ok a u ran = rw ran refl

  pub in_tx-err :
      (x : Error) (u : Tables)
      → body (calm t) ≡ (err x, calm u)
      → is_sentinel x ≡ true
      → in_tx d body (calm t) ≡ (err x, calm t)
  unfolding in_tx signal statement ended
  in_tx-err x u ran known = rw ran (rw known refl)

-- ===== src/Base/Equality.antt =====
-- Go's `==` and `slices.Contains`, for every type whose equality can be decided.
use Prim.Native.Nat.{ℕ}
use mathlib.Core.Path.{◌≡◌, refl}
use mathlib.Core.Logic.{ite, dite}
use mathlib.Core.Bool.{Bool, true, false, ◌||◌}
use mathlib.Core.List.{List, [], ◌∷◌}
use native.Mathlib.Decide.{ℕ_discrete}
use native.Mathlib.Omega.{arith}

pub record Eq {ℓ} (A : Type ℓ) : Type ℓ where
  pub dec : Discrete A

module _ {ℓ} {A : Type ℓ} ⦃e : Eq A⦄ where
  infix 50 ◌==◌
  abbrev pub ◌==◌ : A → A → Bool
  a == b = ite (e.dec a b) true false

  unfoldable pub contains : List A → A → Bool
  contains [] a = false
  contains (x ∷ xs) a = a == x || contains xs a

  pub eq_refl : (a : A) → (a == a) ≡ true
  eq_refl a = ground arith

instance abbrev pub nat_eq : Eq ℕ
nat_eq = record { dec = ℕ_discrete }

-- A Go string is its list of bytes.
abbrev pub GoString : Type 0
GoString = List ℕ

pub cons_ne_nil : {x : ℕ} {xs : GoString} → ¬ (x ∷ xs ≡ [])
cons_ne_nil h = cc

pub nil_ne_cons : {x : ℕ} {xs : GoString} → ¬ ([] ≡ x ∷ xs)
nil_ne_cons h = cc

pub cons_ne_head : {x y : ℕ} {xs ys : GoString} → ¬ (x ≡ y) → ¬ (x ∷ xs ≡ y ∷ ys)
cons_ne_head n h = n (ground arith)

pub cons_ne_tail : {x y : ℕ} {xs ys : GoString} → ¬ (xs ≡ ys) → ¬ (x ∷ xs ≡ y ∷ ys)
cons_ne_tail n h = n (ground arith)

pub cons_congr : {x y : ℕ} {xs ys : GoString} → x ≡ y → xs ≡ ys → x ∷ xs ≡ y ∷ ys
cons_congr p q = cc

unfoldable pub string_dec : Discrete GoString
string_dec [] [] = yes refl
string_dec [] (y ∷ ys) = no nil_ne_cons
string_dec (x ∷ xs) [] = no cons_ne_nil
string_dec (x ∷ xs) (y ∷ ys) =
    dite (ℕ_discrete x y)
      (λ p. dite (string_dec xs ys) (λ q. yes (cons_congr p q)) (λ n. no (cons_ne_tail n)))
      (λ n. no (cons_ne_head n))

-- Shut in proofs, where a split on `s == t` yields the equation or its negation.
instance abbrev pub string_eq : Eq GoString
string_eq = record { dec = string_dec }

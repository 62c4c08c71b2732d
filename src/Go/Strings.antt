-- ===== src/Go/Strings.antt =====
-- strings: trimming, lower case and tests on runes.
use gouncer.Base.{ℕ, ◌==◌, nat_eq, Bool, List, [], ◌∷◌, ◌++◌, GoString, if◌then◌else◌, map, any}
use gouncer.Go.Utf8.{segments, runes, encode}
use gouncer.Go.Unicode.{is_space}

module _ {ℓ} {A : Type ℓ} (p : A → Bool) where
  unfoldable pub drop_while : List A → List A
  drop_while [] = []
  drop_while (x ∷ xs) = let rest = drop_while xs in if p x then rest else x ∷ xs

  -- Drops what passes the test at the end.
  unfoldable pub drop_end : List A → List A
  drop_end [] = []
  drop_end (x ∷ xs) =
      let rest = drop_end xs in elim rest [ [] ↦ if p x then [] else x ∷ [] | y ∷ ys ↦ x ∷ y ∷ ys ]

  -- Drops what passes the test at both ends.
  unfoldable pub trim_list : List A → List A
  unfolding drop_while drop_end
  trim_list xs = drop_end (drop_while xs)

unfoldable pub join_bytes : List (ℕ × GoString) → GoString
join_bytes [] = []
join_bytes ((_, bytes) ∷ rest) = bytes ++ join_bytes rest

-- `strings.TrimFunc`
unfoldable pub trim_func : (ℕ → Bool) → GoString → GoString
unfolding trim_list segments join_bytes
trim_func p s = join_bytes (trim_list (λ (r, _). p r) (segments s))

-- `strings.TrimSpace`
unfoldable pub trim_space : GoString → GoString
unfolding trim_func is_space
trim_space = trim_func is_space

-- `strings.ContainsFunc`
unfoldable pub contains_func : (ℕ → Bool) → GoString → Bool
unfolding any runes
contains_func p s = any p (runes s)

-- `strings.ToLower`, where `lower` is `unicode.ToLower`
unfoldable pub to_lower : (ℕ → ℕ) → GoString → GoString
unfolding runes encode
to_lower lower s = encode (map lower (runes s))

-- What a split puts before the parts that follow.
abbrev pub onto_first : ℕ → List GoString → List GoString
onto_first c [] = (c ∷ []) ∷ []
onto_first c (p ∷ ps) = (c ∷ p) ∷ ps

-- `strings.Split` at a byte
unfoldable pub split : ℕ → GoString → List GoString
split separator [] = [] ∷ []
split separator (c ∷ cs) =
    let rest = split separator cs in if c == separator then [] ∷ rest else onto_first c rest

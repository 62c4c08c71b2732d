-- ===== src/Avatar/Colours.antt =====
-- The colour of a name.
use gouncer.Base.{
  ℕ, zero, suc, ◌+◌, ◌*◌, ◌%◌, ◌≡◌, ◌<◌, refl, true, some, List, [], ◌∷◌, GoString, arith, All, ltb,
  inl, inr, Bool-cases, ◌==◌, nat_eq, ◌&&◌,
}
use gouncer.Go.Utf8.{runes}
use gouncer.Go.Strings.{trim_func}
use gouncer.Avatar.Unicode.{Tables, is_javascript_space, ends_word, lower_from, lower_as_javascript}
use gouncer.Avatar.Initials.{
  ColourPair, palette, get_elem?, hash_runes, colour_index, trimmed_address, initials_address,
  drawn,
}

-- A rune is a code point.
abbrev pub AreRunes : List ℕ → Type 0
AreRunes l = All (λ r. r < 0x110000) l

lower_from-AreRunes :
    (tables : Tables) (before rs : List ℕ)
    → ((r : ℕ) → r < 0x110000 → tables.to_lower r < 0x110000)
    → AreRunes rs
    → AreRunes (lower_from tables before rs)
unfolding lower_from
lower_from-AreRunes tables before [] lower all = tt
lower_from-AreRunes tables before (r ∷ rs) lower (here, there) =
    let rest = lower_from-AreRunes tables (r ∷ before) rs lower there in
    let low = lower r here in
    elim (Bool-cases (r == 0x130)) [
      | inl dotted ↦ rw dotted (omega arith, (omega arith, rest))
      | inr plain ↦ elim (Bool-cases (r == 0x3A3 && ends_word tables before rs)) [
        | inl final ↦ rw plain (rw final (omega arith, rest))
        | inr other ↦ rw plain (rw other (low, rest))
      ]
    ]

-- The sums of the hash stay in 63 bits.
hash_runes-some :
    (hash : ℕ) (rs : List ℕ)
    → hash < 2147483647
    → AreRunes rs
    → (n : ℕ) × (hash_runes hash rs ≡ some n)
unfolding hash_runes
hash_runes-some hash [] small all = (hash, refl)
hash_runes-some hash (r ∷ rs) small (here, there) =
    let fits : ltb (hash * 31 + r) 0x8000000000000000 ≡ true = ground arith in
    let (n, rest) = hash_runes-some ((hash * 31 + r) % 2147483647) rs (omega arith) there in
    (n, rw fits rest)

palette-some : (i : ℕ) → i < 6 → (p : ColourPair) × (get_elem? palette i ≡ some p)
unfolding palette get_elem?
palette-some zero h = (_, refl)
palette-some (suc zero) h = (_, refl)
palette-some (suc (suc zero)) h = (_, refl)
palette-some (suc (suc (suc zero))) h = (_, refl)
palette-some (suc (suc (suc (suc zero)))) h = (_, refl)
palette-some (suc (suc (suc (suc (suc zero))))) h = (_, refl)
palette-some (suc (suc (suc (suc (suc (suc i)))))) h = absurd (omega arith)

-- Every name has a drawing: where the runes of the trimmed name and their lower case are code points, no
-- sum of the hash leaves 63 bits, so that the hash is not negative, and the palette holds the colour.
pub initials_address-some :
    (tables : Tables) (name : GoString) (size : ℕ)
    → ((r : ℕ) → r < 0x110000 → tables.to_lower r < 0x110000)
    → AreRunes (runes (trim_func is_javascript_space name))
    → (address : GoString) × (initials_address tables name size ≡ some address)
unfolding initials_address trimmed_address colour_index lower_as_javascript
initials_address-some tables name size lower all =
    let (n, hashed) =
      hash_runes-some 0 _ (omega arith)
        (lower_from-AreRunes tables [] (runes (trim_func is_javascript_space name)) lower all) in
    let (p, there) = palette-some (n % 6) (omega arith) in
    let drawing : initials_address tables name size
        ≡ drawn tables (trim_func is_javascript_space name) size (some p) =
      rw hashed (rw there refl) in
    (_, drawing)

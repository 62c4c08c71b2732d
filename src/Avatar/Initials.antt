-- ===== src/Avatar/Initials.antt =====
-- avatar/initials.go: a drawing of the first letter of a name.
use gouncer.Base.{
  ℕ, zero, suc, ◌+◌, ◌*◌, ◌%◌, Option, none, some, List, [], ◌∷◌, ◌++◌, GoString, codes, ltb,
  if◌then◌else◌,
}
use gouncer.Go.Utf8.{runes, encode}
use gouncer.Go.Strings.{trim_func}
use gouncer.Go.Scan.{decimal}
use gouncer.Avatar.Unicode.{Tables, is_javascript_space, lower_as_javascript}

-- `colourPair`
pub record ColourPair : Type 0 where
  pub circle : GoString
  pub letter : GoString

abbrev pair : GoString → GoString → ColourPair
pair circle letter = record { circle = circle; letter = letter }

-- `palette`
unfoldable pub palette : List ColourPair
palette =
    pair (codes "#3b59e4") (codes "#f7ecbd")
    ∷ pair (codes "#c6396e") (codes "#ecfaf4")
    ∷ pair (codes "#964c9a") (codes "#deefdd")
    ∷ pair (codes "#007017") (codes "#ffffff")
    ∷ pair (codes "#996800") (codes "#ffffff")
    ∷ pair (codes "#50575e") (codes "#ffffff")
    ∷ []

-- An element of an array, `none` where Go panics.
unfoldable pub get_elem? {ℓ} : {A : Type ℓ} → List A → ℕ → Option A
get_elem? [] i = none
get_elem? (a ∷ l) zero = some a
get_elem? (a ∷ l) (suc i) = get_elem? l i

-- The loop of `colourIndex`, `none` once a sum is beyond the 63 bits of a positive int64.
unfoldable pub hash_runes : ℕ → List ℕ → Option ℕ
hash_runes hash [] = some hash
hash_runes hash (r ∷ rs) =
    let rest = hash_runes ((hash * 31 + r) % 2147483647) rs in
    if ltb (hash * 31 + r) 0x8000000000000000 then rest else none

abbrev pub entry_of : Option ℕ → Option ℕ
entry_of none = none
entry_of (some hash) = some (hash % 6)

module _ (tables : Tables) where
  -- `colourIndex`
  unfoldable pub colour_index : GoString → Option ℕ
  unfolding hash_runes lower_as_javascript runes
  colour_index name = entry_of (hash_runes 0 (lower_as_javascript tables (runes name)))

  abbrev pub first_upper : List ℕ → GoString
  first_upper [] = []
  first_upper (r ∷ _) = encode (tables.to_upper r ∷ [])

  -- `firstLetter`
  unfoldable pub first_letter : GoString → GoString
  unfolding runes encode
  first_letter name = first_upper (runes name)

  abbrev pub drawn_letter : GoString → GoString → GoString
  drawn_letter colour [] = []
  drawn_letter colour (b ∷ letter) =
      codes "<text x=\"16\" y=\"20.2\" fill=\""
      ++ colour
      ++ codes
          "\" font-family=\"-apple-system, system-ui, 'Segoe UI', 'Roboto', 'Oxygen-Sans', 'Ubuntu', 'Cantarell', 'Helvetica Neue', sans-serif\" font-size=\"12\" font-weight=\"600\" text-anchor=\"middle\">"
      ++ tables.escape_text (b ∷ letter)
      ++ codes "</text>"

  -- `letterText`
  unfoldable pub letter_text : GoString → GoString → GoString
  unfolding first_letter
  letter_text name colour = drawn_letter colour (first_letter name)

  abbrev pub drawn : GoString → ℕ → Option ColourPair → Option GoString
  drawn name size none = none
  drawn name size (some p) = some (
      codes "data:image/svg+xml;base64,"
      ++ tables.base64 (
          codes "<svg xmlns=\"http://www.w3.org/2000/svg\" width=\""
          ++ decimal size
          ++ codes "\" height=\""
          ++ decimal size
          ++ codes "\" viewBox=\"0 0 32 32\"><circle cx=\"16\" cy=\"16\" r=\"16\" fill=\""
          ++ p.circle
          ++ codes "\"/>"
          ++ letter_text name p.letter
          ++ codes "</svg>"))

  abbrev pub picked : Option ℕ → Option ColourPair
  picked none = none
  picked (some i) = get_elem? palette i

  -- `initialsAddress` of a trimmed name
  unfoldable pub trimmed_address : GoString → ℕ → Option GoString
  unfolding letter_text colour_index palette get_elem? decimal
  trimmed_address name size = drawn name size (picked (colour_index name))

  -- `initialsAddress`, where `none` is a panic.
  unfoldable pub initials_address : GoString → ℕ → Option GoString
  unfolding trimmed_address trim_func is_javascript_space
  initials_address name size = trimmed_address (trim_func is_javascript_space name) size

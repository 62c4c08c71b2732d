-- ===== src/Avatar/Unicode.antt =====
-- avatar/lower.go: JavaScript's white space and lower case.
use gouncer.Base.{
  ℕ, Bool, true, false, not, ◌&&◌, ◌||◌, List, [], ◌∷◌, ◌==◌, nat_eq, contains, if◌then◌else◌,
}
use gouncer.Go.Unicode.{is_space}

-- What the package calls of Go's standard library: the tables of unicode that `caseIgnorable` and
-- `casedFirst` look a rune up in, its case mappings, `xml.EscapeText`, padded base64, `url.QueryEscape`,
-- the ranges of `isEastAsian`, and sha256.
pub record Tables : Type 0 where
  pub is_mark : ℕ → Bool
  pub is_cased : ℕ → Bool
  pub is_east_asian : ℕ → Bool
  pub to_lower : ℕ → ℕ
  pub to_upper : ℕ → ℕ
  pub escape_text : List ℕ → List ℕ
  pub base64 : List ℕ → List ℕ
  pub query_escape : List ℕ → List ℕ
  pub sha256 : List ℕ → List ℕ

-- `midLetters`
abbrev pub mid_letters : List ℕ
mid_letters =
    39 ∷ 46 ∷ 58 ∷ 0xB7 ∷ 0x387 ∷ 0x55F ∷ 0x5F4 ∷ 0x2018 ∷ 0x2019 ∷ 0x2024 ∷ 0x2027 ∷ 0xFE13
    ∷ 0xFE52 ∷ 0xFE55 ∷ 0xFF07 ∷ 0xFF0E ∷ 0xFF1A ∷ []

-- `isJavaScriptSpace`
unfoldable pub is_javascript_space : ℕ → Bool
unfolding is_space
is_javascript_space r = if r == 0xFEFF then true else if r == 0x85 then false else is_space r

module _ (tables : Tables) where
  -- `caseIgnorable`
  unfoldable pub case_ignorable : ℕ → Bool
  unfolding contains
  case_ignorable r = tables.is_mark r || contains mid_letters r

  -- `casedFirst`
  unfoldable pub cased_first : List ℕ → Bool
  unfolding case_ignorable
  cased_first [] = false
  cased_first (r ∷ rs) =
      let rest = cased_first rs in if case_ignorable r then rest else tables.is_cased r

  -- `endsWord`, with the runes before the character from the last one to the first, and those after it.
  unfoldable pub ends_word : List ℕ → List ℕ → Bool
  unfolding cased_first
  ends_word before after = cased_first before && not (cased_first after)

  -- The loop of `lowerAsJavaScript`, with the runes before this one from the last to the first.
  unfoldable pub lower_from : List ℕ → List ℕ → List ℕ
  unfolding ends_word
  lower_from before [] = []
  lower_from before (r ∷ rs) =
      let rest = lower_from (r ∷ before) rs in
      if r == 0x130
      then 105 ∷ 0x307 ∷ rest
      else if r == 0x3A3 && ends_word before rs
      then 0x3C2 ∷ rest
      else tables.to_lower r ∷ rest

  -- `lowerAsJavaScript`
  unfoldable pub lower_as_javascript : List ℕ → List ℕ
  unfolding lower_from
  lower_as_javascript runes = lower_from [] runes

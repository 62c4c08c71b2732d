-- ===== src/Avatar/Gravatar.antt =====
-- avatar/gravatar.go: the address of an image of Gravatar.
use gouncer.Base.{
  ℕ, ◌+◌, ◌/◌, ◌%◌, Bool, true, false, ◌&&◌, Option, none, some, List, [], ◌∷◌, ◌++◌, GoString, leb,
  nat_eq, string_eq, ◌==◌, contains, take, codes, if◌then◌else◌,
}
use gouncer.Go.Utf8.{runes, encode}
use gouncer.Go.Strings.{trim_func, trim_space, contains_func, to_lower}
use gouncer.Go.Scan.{decimal}
use gouncer.Avatar.Unicode.{Tables}

-- `phpSpace`
abbrev pub php_space : List ℕ
php_space = 32 ∷ 9 ∷ 10 ∷ 13 ∷ 0 ∷ 11 ∷ []

-- `asciiLower`
unfoldable pub ascii_lower : List ℕ → List ℕ
ascii_lower [] = []
ascii_lower (b ∷ bs) = (if leb 65 b && leb b 90 then b + 32 else b) ∷ ascii_lower bs

-- `hex.EncodeToString`, where a digit is that of Go's table.
abbrev hex_digit : ℕ → ℕ
hex_digit n = if leb n 9 then 48 + n else 87 + n

abbrev hex : List ℕ → GoString
hex [] = []
hex (b ∷ bs) = hex_digit (b / 16) ∷ hex_digit (b % 16) ∷ hex bs

-- `cmp.Or`
abbrev pub text_or : GoString → GoString → GoString
text_or [] default = default
text_or (b ∷ bs) default = b ∷ bs

-- `firstRunes`
unfoldable pub first_runes : List ℕ → ℕ → GoString
unfolding encode
first_runes rs count = encode (take count rs)

-- `sentDefault`
unfoldable pub sent_default : GoString → GoString
sent_default image =
    if image == codes "mystery"
    then codes "mm"
    else if image == codes "gravatar_default"
    then []
    else image

-- What follows the last space of a name, if it has one.
unfoldable pub after_last_space : GoString → Option GoString
after_last_space [] = none
after_last_space (b ∷ bs) = elim (after_last_space bs) [
  | some tail ↦ some tail
  | none ↦ if b == 32 then some bs else none
]

module _ (tables : Tables) where
  -- `emailHash`
  unfoldable pub email_hash : GoString → GoString
  unfolding trim_func contains ascii_lower
  email_hash email = hex (tables.sha256 (ascii_lower (trim_func (contains php_space) email)))

  abbrev pub letters_of : GoString → Bool → Option GoString → GoString
  letters_of name east_asian none = first_runes (runes name) 2
  letters_of name true (some tail) = first_runes (runes name) 2
  letters_of name false (some tail) = first_runes (runes name) 1 ++ first_runes (runes tail) 1

  -- `gravatarInitials`
  unfoldable pub gravatar_initials : GoString → GoString
  unfolding runes first_runes contains_func after_last_space
  gravatar_initials name =
      letters_of name (contains_func tables.is_east_asian name) (after_last_space name)

  abbrev pub percent_20 : GoString → GoString
  percent_20 [] = []
  percent_20 (b ∷ bs) =
      let rest = percent_20 bs in if b == 43 then 37 ∷ 50 ∷ 48 ∷ rest else b ∷ rest

  -- `rawURLEncode`
  unfoldable pub raw_url_encode : GoString → GoString
  raw_url_encode value = percent_20 (tables.query_escape value)

  abbrev pub argument_of : GoString → GoString
  argument_of [] = []
  argument_of (b ∷ letters) = codes "&initials=" ++ raw_url_encode (b ∷ letters)

  -- `initialsArgument`
  unfoldable pub initials_argument : GoString → GoString → GoString
  unfolding gravatar_initials trim_space raw_url_encode
  initials_argument name image =
      if image == codes "initials" then argument_of (gravatar_initials (trim_space name)) else []

  abbrev pub default_argument : GoString → GoString
  default_argument [] = []
  default_argument (b ∷ sent) = codes "&d=" ++ raw_url_encode (b ∷ sent)

  -- `gravatarQuery`
  unfoldable pub gravatar_query : GoString → ℕ → GoString → GoString → GoString
  unfolding decimal sent_default raw_url_encode to_lower initials_argument
  gravatar_query name size default rating =
      let image = text_or default (codes "mystery") in
      codes "s="
      ++ decimal size
      ++ default_argument (sent_default image)
      ++ codes "&r="
      ++ raw_url_encode (to_lower tables.to_lower (text_or rating (codes "G")))
      ++ initials_argument name image

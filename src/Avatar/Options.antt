-- ===== src/Avatar/Options.antt =====
-- avatar/avatar.go: which image, and its size.
use gouncer.Base.{
  ℕ, Option, none, some, List, [], ◌∷◌, ◌++◌, GoString, leb, nat_eq, string_eq, ◌==◌, contains,
  codes, if◌then◌else◌,
}
use gouncer.Base.Int.{ℤ, pos, negsuc}
use gouncer.Core.Errors.{Error, foreign, wrap}
use gouncer.Core.Results.{Result, ok, err}
use gouncer.Avatar.Unicode.{Tables}
use gouncer.Avatar.Initials.{initials_address}
use gouncer.Avatar.Gravatar.{email_hash, gravatar_query}

abbrev pub modes : List GoString
modes = codes "initials" ∷ codes "gravatar" ∷ codes "off" ∷ []

abbrev pub ratings : List GoString
ratings = codes "G" ∷ codes "PG" ∷ codes "R" ∷ codes "X" ∷ []

abbrev pub defaults : List GoString
defaults =
    codes "mystery"
    ∷ codes "blank"
    ∷ codes "gravatar_default"
    ∷ codes "identicon"
    ∷ codes "wavatar"
    ∷ codes "monsterid"
    ∷ codes "retro"
    ∷ codes "robohash"
    ∷ codes "initials"
    ∷ codes "color"
    ∷ []

-- `ErrUnknownMode`, `ErrUnknownDefault`, `ErrUnknownRating` and `ErrSize`
abbrev pub unknown_mode : Error
unknown_mode = foreign 110

abbrev pub unknown_default : Error
unknown_default = foreign 111

abbrev pub unknown_rating : Error
unknown_rating = foreign 112

abbrev pub size_error : Error
size_error = foreign 113

abbrev pub first_known : List GoString → GoString
first_known [] = []
first_known (k ∷ _) = k

-- `parse`
unfoldable pub parse : GoString → List GoString → Error → Result GoString
unfolding contains
parse [] known refused = ok (first_known known)
parse (b ∷ bs) known refused = if contains known (b ∷ bs) then ok (b ∷ bs) else err (wrap refused)

-- `bounded`, with `MinSize` 1 and `MaxSize` 2048
unfoldable pub bounded : ℤ → ℕ
bounded (pos n) = if leb n 1 then 1 else if leb 2048 n then 2048 else n
bounded (negsuc n) = 1

abbrev pub default_size : ℕ
default_size = 96

abbrev pub sized : Option ℤ → Result ℕ
sized none = err (wrap size_error)
sized (some (pos n)) = if n == bounded (pos n) then ok n else err (wrap size_error)
sized (some (negsuc n)) = err (wrap size_error)

-- `ParseSize`, where `atoi` is `strconv.Atoi`.
unfoldable pub parse_size : (GoString → Option ℤ) → GoString → Result ℕ
unfolding bounded
parse_size atoi [] = ok default_size
parse_size atoi (b ∷ bs) = sized (atoi (b ∷ bs))

-- `ParseMode`, `ParseDefault` and `ParseRating`
unfoldable pub parse_mode : GoString → Result GoString
unfolding parse
parse_mode value = parse value modes unknown_mode

unfoldable pub parse_default : GoString → Result GoString
unfolding parse
parse_default value = parse value defaults unknown_default

unfoldable pub parse_rating : GoString → Result GoString
unfolding parse
parse_rating value = parse value ratings unknown_rating

-- `Options`
pub record Options : Type 0 where
  pub mode : GoString
  pub default_image : GoString
  pub rating : GoString

-- `Address`, where `none` is a panic.
unfoldable pub address : Tables → GoString → GoString → ℤ → Options → Option GoString
unfolding bounded initials_address email_hash gravatar_query
address tables name email size options =
    if options.mode == codes "off"
    then some []
    else if options.mode == codes "gravatar"
    then some (
        codes "https://secure.gravatar.com/avatar/"
        ++ email_hash tables email
        ++ codes "?"
        ++ gravatar_query tables name (bounded size) options.default_image options.rating)
    else initials_address tables name (bounded size)

-- ===== src/Avatar/Examples.antt =====
-- Tables that know the letters of ASCII, and the theorems at one name.
use gouncer.Base.{
  ℕ, ◌+◌, ◌≡◌, ◌<◌, refl, false, ◌&&◌, some, [], GoString, arith, leb, codes, if◌then◌else◌,
  ℕ_discrete,
}
use gouncer.Base.Int.{pos}
use gouncer.Core.Results.{ok}
use gouncer.Go.Utf8.{runes}
use gouncer.Go.Strings.{trim_func}
use gouncer.Avatar.Unicode.{Tables, is_javascript_space}
use gouncer.Avatar.Options.{Options, bounded, parse_size, address}
use gouncer.Avatar.Colours.{AreRunes}
use gouncer.Avatar.Sizes.{Names, parse_size-address, address-some}

abbrev ascii : Tables
ascii = record {
  is_mark = λ r. false;
  is_cased = λ r. leb 65 r;
  is_east_asian = λ r. false;
  to_lower = λ r. if leb 65 r && leb r 90 then r + 32 else r;
  to_upper = λ r. r;
  escape_text = λ t. t;
  base64 = λ t. t;
  query_escape = λ t. t;
  sha256 = λ t. t;
}

ascii_lower-rune : (r : ℕ) → r < 0x110000 → ascii.to_lower r < 0x110000
ascii_lower-rune r h = ground arith

abbrev plain_options : Options
plain_options = record { mode = []; default_image = []; rating = [] }

name-AreRunes : AreRunes (runes (trim_func is_javascript_space (codes " Ada ")))
unfolding runes trim_func is_javascript_space ℕ_discrete
name-AreRunes = (omega arith, (omega arith, (omega arith, tt)))

address-some_example :
    (a : GoString) × (address ascii
        (codes " Ada ")
        (codes "ada@example.org")
        (pos 5000)
        plain_options
      ≡ some a)
address-some_example =
    address-some ascii (codes " Ada ") (codes "ada@example.org") (pos 5000) plain_options
      ascii_lower-rune name-AreRunes

read_size : parse_size (λ t. some (pos 2048)) (codes "2048") ≡ ok 2048
unfolding parse_size bounded ℕ_discrete
read_size = refl

parse_size-address_example : Names (λ t. some (pos 2048)) (codes "2048") 2048
parse_size-address_example =
    (parse_size-address (λ t. some (pos 2048)) (codes "2048") 2048).0.0 read_size

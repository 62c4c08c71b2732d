-- ===== src/Go/Base64.antt =====
-- encoding/base64 without padding: `RawStdEncoding` and `RawURLEncoding`, which differ in the two
-- characters of 62 and 63.
pub mod Laws
use gouncer.Base.{
  ℕ, ◌+◌, ◌-◌, ◌*◌, ◌/◌, ◌%◌, ◌<◌, ◌≡◌, refl, ap, ◌≢◌, Bool, true, false, ◌&&◌, Option, none, some,
  List, [], ◌∷◌, GoString, arith, ltb, leb, ◌==◌, nat_eq, if◌then◌else◌, All,
}

-- The characters of 62 and 63.
pub record Alphabet : Type 0 where
  pub char_62 : ℕ
  pub char_63 : ℕ

abbrev pub std_alphabet : Alphabet
std_alphabet = record { char_62 = b'+'; char_63 = b'/' }

abbrev pub url_alphabet : Alphabet
url_alphabet = record { char_62 = b'-'; char_63 = b'_' }

module _ (alphabet : Alphabet) where
  open alphabet use {char_62, char_63}

  encode_digit : ℕ → ℕ
  encode_digit v =
      if ltb v 26
      then 65 + v
      else if ltb v 52
      then 71 + v
      else if ltb v 62
      then v - 4
      else if v == 62
      then char_62
      else char_63

  decode_digit : ℕ → Option ℕ
  decode_digit c =
      if leb b'A' c && leb c b'Z'
      then some (c - 65)
      else if leb b'a' c && leb c b'z'
      then some (c - 71)
      else if leb b'0' c && leb c b'9'
      then some (c + 4)
      else if c == char_62
      then some 62
      else if c == char_63
      then some 63
      else none

  -- `EncodeToString`
  unfoldable pub encode : List ℕ → GoString
  unfolding encode_digit
  encode [] = []
  encode (a ∷ []) = encode_digit (a / 4) ∷ encode_digit (a % 4 * 16) ∷ []
  encode (a ∷ b ∷ []) =
      encode_digit (a / 4) ∷ encode_digit (a % 4 * 16 + b / 16) ∷ encode_digit (b % 16 * 4) ∷ []
  encode (a ∷ b ∷ c ∷ rest) =
      encode_digit (a / 4)
      ∷ encode_digit (a % 4 * 16 + b / 16)
      ∷ encode_digit (b % 16 * 4 + c / 64)
      ∷ encode_digit (c % 64)
      ∷ encode rest

  digits : GoString → Option (List ℕ)
  unfolding decode_digit
  digits [] = some []
  digits (c ∷ cs) =
      let rest = digits cs in
      if c == 10 then rest else if c == 13 then rest else elim (decode_digit c) [
        | none ↦ none
        | some v ↦ elim rest [ none ↦ none | some vs ↦ some (v ∷ vs) ]
      ]

  -- The bytes of the six-bit digits. The bits that a last digit has over are dropped.
  join_digits : List ℕ → Option (List ℕ)
  join_digits [] = some []
  join_digits (a ∷ []) = none
  join_digits (a ∷ b ∷ []) = some ((a * 4 + b / 16) ∷ [])
  join_digits (a ∷ b ∷ c ∷ []) = some ((a * 4 + b / 16) ∷ (b % 16 * 16 + c / 4) ∷ [])
  join_digits (a ∷ b ∷ c ∷ d ∷ rest) = elim (join_digits rest) [
    | none ↦ none
    | some bytes ↦ some ((a * 4 + b / 16) ∷ (b % 16 * 16 + c / 4) ∷ (c % 4 * 64 + d) ∷ bytes)
  ]

  -- `DecodeString`, which passes over line ends.
  unfoldable pub decode : GoString → Option (List ℕ)
  unfolding digits join_digits
  decode s = elim (digits s) [ none ↦ none | some vs ↦ join_digits vs ]

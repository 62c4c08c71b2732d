-- ===== src/Go/Utf8.antt =====
-- unicode/utf8: what `range` over a string reads, and what `WriteRune` appends.
pub mod Laws
use gouncer.Base.{
  ℕ, zero, suc, ◌+◌, ◌-◌, ◌*◌, ◌/◌, ◌%◌, Bool, ◌&&◌, ◌||◌, not, List, [], ◌∷◌, ◌++◌, GoString, ltb,
  leb, if◌then◌else◌, length, take, drop, map, any, ◌==◌, nat_eq,
}

-- `utf8.RuneError`, U+FFFD
abbrev pub rune_error : ℕ
rune_error = 0xFFFD

abbrev within : ℕ → ℕ → ℕ → Bool
within lo hi b = leb lo b && leb b hi

-- A continuation byte in 80..BF.
abbrev is_tail : ℕ → Bool
is_tail = within 0x80 0xBF

-- The least and the greatest second byte that a first byte of three, or of four, admits.
abbrev second_of_three : ℕ → ℕ → Bool
second_of_three b c =
    if b == 0xE0 then within 0xA0 0xBF c else if b == 0xED then within 0x80 0x9F c else is_tail c

abbrev second_of_four : ℕ → ℕ → Bool
second_of_four b c =
    if b == 0xF0 then within 0x90 0xBF c else if b == 0xF4 then within 0x80 0x8F c else is_tail c

decode_two : ℕ → List ℕ → ℕ × ℕ
decode_two b (c ∷ _) = if is_tail c then ((b - 0xC0) * 64 + (c - 0x80), 2) else (rune_error, 1)
decode_two b _ = (rune_error, 1)

decode_three : ℕ → List ℕ → ℕ × ℕ
decode_three b (c ∷ d ∷ _) =
    if second_of_three b c && is_tail d
    then ((b - 0xE0) * 4096 + (c - 0x80) * 64 + (d - 0x80), 3)
    else (rune_error, 1)
decode_three b _ = (rune_error, 1)

decode_four : ℕ → List ℕ → ℕ × ℕ
decode_four b (c ∷ d ∷ e ∷ _) =
    if second_of_four b c && (is_tail d && is_tail e)
    then ((b - 0xF0) * 262144 + (c - 0x80) * 4096 + (d - 0x80) * 64 + (e - 0x80), 4)
    else (rune_error, 1)
decode_four b _ = (rune_error, 1)

-- `utf8.DecodeRuneInString`: the rune at the front, and its width.
unfoldable pub decode_rune : ℕ → List ℕ → ℕ × ℕ
unfolding decode_two decode_three decode_four
decode_rune b rest =
    if ltb b 0x80
    then (b, 1)
    else if within 0xC2 0xDF b
    then decode_two b rest
    else if within 0xE0 0xEF b
    then decode_three b rest
    else if within 0xF0 0xF4 b
    then decode_four b rest
    else (rune_error, 1)

segments_within : ℕ → GoString → List (ℕ × GoString)
segments_within zero s = []
segments_within (suc fuel) [] = []
segments_within (suc fuel) (b ∷ rest) =
    let (rune, width) = decode_rune b rest in
    (rune, take width (b ∷ rest)) ∷ segments_within fuel (drop width (b ∷ rest))

-- The runes of a string, each with the bytes that it was read from.
unfoldable pub segments : GoString → List (ℕ × GoString)
unfolding segments_within decode_rune
segments s = segments_within (length s) s

-- `[]rune(s)`
unfoldable pub runes : GoString → List ℕ
unfolding segments
runes s = map (λ (r, _). r) (segments s)

-- `utf8.ValidString`
unfoldable pub valid_string : GoString → Bool
unfolding segments any
valid_string s = not (any (λ (r, bytes). r == rune_error && ltb (length bytes) 2) (segments s))

-- `strings.Builder.WriteRune`: a surrogate or a number past U+10FFFF is written as U+FFFD.
unfoldable pub encode_rune : ℕ → GoString
encode_rune r =
    if ltb r 0x80
    then r ∷ []
    else if ltb r 0x800
    then (0xC0 + r / 64) ∷ (0x80 + r % 64) ∷ []
    else if within 0xD800 0xDFFF r || ltb 0x10FFFF r
    then 0xEF ∷ 0xBF ∷ 0xBD ∷ []
    else if ltb r 0x10000
    then (0xE0 + r / 4096) ∷ (0x80 + r / 64 % 64) ∷ (0x80 + r % 64) ∷ []
    else (0xF0 + r / 262144) ∷ (0x80 + r / 4096 % 64) ∷ (0x80 + r / 64 % 64) ∷ (0x80 + r % 64) ∷ []

-- `string(runes)`
unfoldable pub encode : List ℕ → GoString
unfolding encode_rune
encode [] = []
encode (r ∷ rs) = encode_rune r ++ encode rs

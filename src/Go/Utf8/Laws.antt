-- ===== src/Go/Utf8/Laws.antt =====
-- Reading what was written: a string that encodes runes is read back as those runes.
use gouncer.Base.{
  ℕ, zero, suc, ◌≤◌, ◌<◌, ◌≡◌, refl, sym, ◌∙◌, ap, Bool, true, false, ◌&&◌, ◌||◌, List, [], ◌∷◌,
  ◌++◌, GoString, arith, ltb, length, length-append, map, All, nat_eq, ◌==◌, any, inl, inr,
  Bool-cases,
}
use mathlib.Core.List.{append_assoc}
use gouncer.Go.Utf8.{
  decode_rune, segments_within, segments, runes, encode_rune, encode, rune_error, valid_string,
}

-- A Unicode scalar value: no surrogate, and at most U+10FFFF.
abbrev pub is_scalar : ℕ → Bool
is_scalar r = ltb r 0xD800 || (ltb 0xDFFF r && ltb r 0x110000)

read_one :
    (fuel r : ℕ) (rest : GoString)
    → r < 0x80
    → segments_within (suc fuel) (encode_rune r ++ rest)
      ≡ (r, encode_rune r) ∷ segments_within fuel rest
unfolding segments_within encode_rune decode_rune
read_one fuel r rest h = ground arith

read_two :
    (fuel r : ℕ) (rest : GoString)
    → 0x80 ≤ r
    → r < 0x800
    → segments_within (suc fuel) (encode_rune r ++ rest)
      ≡ (r, encode_rune r) ∷ segments_within fuel rest
unfolding segments_within encode_rune decode_rune
read_two fuel r rest l h = ground arith

read_three :
    (fuel r : ℕ) (rest : GoString)
    → 0x800 ≤ r
    → r < 0x10000
    → is_scalar r ≡ true
    → segments_within (suc fuel) (encode_rune r ++ rest)
      ≡ (r, encode_rune r) ∷ segments_within fuel rest
unfolding segments_within encode_rune decode_rune
read_three fuel r rest l h valid = ground arith

read_four :
    (fuel r : ℕ) (rest : GoString)
    → 0x10000 ≤ r
    → r < 0x110000
    → segments_within (suc fuel) (encode_rune r ++ rest)
      ≡ (r, encode_rune r) ∷ segments_within fuel rest
unfolding segments_within encode_rune decode_rune
read_four fuel r rest l h = ground arith

read_rune :
    (fuel r : ℕ) (rest : GoString)
    → is_scalar r ≡ true
    → segments_within (suc fuel) (encode_rune r ++ rest)
      ≡ (r, encode_rune r) ∷ segments_within fuel rest
read_rune fuel r rest valid = elim (Bool-cases (ltb r 0x80)) [
  | inl one ↦ read_one fuel r rest (ground arith)
  | inr more ↦ elim (Bool-cases (ltb r 0x800)) [
    | inl two ↦ read_two fuel r rest (ground arith) (ground arith)
    | inr most ↦ elim (Bool-cases (ltb r 0x10000)) [
      | inl three ↦ read_three fuel r rest (ground arith) (ground arith) valid
      | inr four ↦ read_four fuel r rest (ground arith) (ground arith)
    ]
  ]
]

encode_rune-pos : (r : ℕ) → 0 < length (encode_rune r)
unfolding encode_rune
encode_rune-pos r = ground arith

segments_within-encode :
    (fuel : ℕ) (rs : List ℕ)
    → length (encode rs) ≤ fuel
    → All (λ r. is_scalar r ≡ true) rs
    → segments_within fuel (encode rs) ≡ map (λ r. (r, encode_rune r)) rs
unfolding encode
segments_within-encode zero [] h valid = unfold segments_within in refl
segments_within-encode (suc fuel) [] h valid = unfold segments_within in refl
segments_within-encode zero (r ∷ rs) h valid =
    absurd (omega (arith, length-append (encode_rune r) (encode rs), encode_rune-pos r))
segments_within-encode (suc fuel) (r ∷ rs) h (v, vs) =
    read_rune fuel r (encode rs) v
    ∙ ap (λ l. (r, encode_rune r) ∷ l)
        (segments_within-encode fuel rs
          (omega (arith, length-append (encode_rune r) (encode rs), encode_rune-pos r)) vs)

-- What was written rune by rune is read back rune by rune.
pub segments-encode :
    (rs : List ℕ)
    → All (λ r. is_scalar r ≡ true) rs
    → segments (encode rs) ≡ map (λ r. (r, encode_rune r)) rs
unfolding segments
segments-encode rs valid = segments_within-encode _ rs (omega arith) valid

first_of_pairs :
    (rs : List ℕ) → map (λ (x : ℕ × GoString). x.0) (map (λ r. (r, encode_rune r)) rs) ≡ rs
first_of_pairs [] = refl
first_of_pairs (r ∷ rs) = ap (λ l. r ∷ l) (first_of_pairs rs)

-- A string that encodes scalar values is read back as those values.
pub runes-encode : (rs : List ℕ) → All (λ r. is_scalar r ≡ true) rs → runes (encode rs) ≡ rs
unfolding runes
runes-encode rs valid = rw (segments-encode rs valid) (first_of_pairs rs)

-- Whatever the bytes, what is read is a scalar value.
decode_rune-scalar : (b : ℕ) (rest : GoString) → is_scalar (decode_rune b rest).0 ≡ true
unfolding decode_rune
decode_rune-scalar b [] = ground arith
decode_rune-scalar b (c ∷ []) = ground arith
decode_rune-scalar b (c ∷ d ∷ []) = ground arith
decode_rune-scalar b (c ∷ d ∷ e ∷ rest) = ground arith

segments_within-scalar :
    (fuel : ℕ) (s : GoString)
    → All (λ r. is_scalar r ≡ true) (map (λ (x : ℕ × GoString). x.0) (segments_within fuel s))
unfolding segments_within
segments_within-scalar zero s = tt
segments_within-scalar (suc fuel) [] = tt
segments_within-scalar (suc fuel) (b ∷ rest) =
    (decode_rune-scalar b rest, segments_within-scalar fuel _)

pub runes-scalar : (s : GoString) → All (λ r. is_scalar r ≡ true) (runes s)
unfolding runes segments
runes-scalar s = segments_within-scalar (length s) s

pub encode-append : (rs ts : List ℕ) → encode (rs ++ ts) ≡ encode rs ++ encode ts
unfolding encode
encode-append [] ts = refl
encode-append (r ∷ rs) ts =
    rw (encode-append rs ts) (sym (append_assoc (encode_rune r) (encode rs) (encode ts)))

error_is_wide : (r : ℕ) → (r == rune_error && ltb (length (encode_rune r)) 2) ≡ false
unfolding encode_rune
error_is_wide r = ground arith

none_narrow :
    (rs : List ℕ)
    → any (λ (r, bytes). r == rune_error && ltb (length bytes) 2) (map (λ r. (r, encode_rune r)) rs)
      ≡ false
unfolding any
none_narrow [] = refl
none_narrow (r ∷ rs) = rw (error_is_wide r) (none_narrow rs)

-- What encodes scalar values is valid UTF-8.
pub valid_string-encode :
    (rs : List ℕ) → All (λ r. is_scalar r ≡ true) rs → valid_string (encode rs) ≡ true
unfolding valid_string
valid_string-encode rs valid = rw (segments-encode rs valid) (rw (none_narrow rs))

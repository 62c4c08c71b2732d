-- ===== src/Go/Base64/Laws.antt =====
-- What is encoded decodes to itself, and which characters it has.
use gouncer.Base.{
  ℕ, ◌+◌, ◌*◌, ◌/◌, ◌%◌, ◌<◌, ◌≡◌, refl, false, some, List, [], ◌∷◌, GoString, arith, ◌==◌, nat_eq,
  map, All,
}
use gouncer.Go.Base64.{
  std_alphabet, encode_digit, decode_digit, encode, digits, join_digits, decode,
}

abbrev pub IsByte : ℕ → Type 0
IsByte b = b < 256

decode_digit-encode_digit :
    (v : ℕ) → v < 64 → decode_digit std_alphabet (encode_digit std_alphabet v) ≡ some v
unfolding decode_digit encode_digit
decode_digit-encode_digit v h = ground arith

-- A character of the encoding is neither a line end nor `$`.
encode_digit-IsPlain :
    (v : ℕ)
    → v < 64
    → ((encode_digit std_alphabet v == 10) ≡ false)
      × ((encode_digit std_alphabet v == 13) ≡ false)
      × ((encode_digit std_alphabet v == b'$') ≡ false)
unfolding encode_digit
encode_digit-IsPlain v h = (ground arith, ground arith, ground arith)

digits-step :
    (v : ℕ) (s : GoString) (vs : List ℕ)
    → v < 64
    → digits std_alphabet s ≡ some vs
    → digits std_alphabet (encode_digit std_alphabet v ∷ s) ≡ some (v ∷ vs)
unfolding digits
digits-step v s vs h rest = ground (arith, decode_digit-encode_digit v h, encode_digit-IsPlain v h)

-- The six-bit digits of the bytes.
sextets : List ℕ → List ℕ
sextets [] = []
sextets (a ∷ []) = a / 4 ∷ a % 4 * 16 ∷ []
sextets (a ∷ b ∷ []) = a / 4 ∷ (a % 4 * 16 + b / 16) ∷ b % 16 * 4 ∷ []
sextets (a ∷ b ∷ c ∷ rest) =
    a / 4 ∷ (a % 4 * 16 + b / 16) ∷ (b % 16 * 4 + c / 64) ∷ c % 64 ∷ sextets rest

encode-map :
    (bytes : List ℕ) → encode std_alphabet bytes ≡ map (encode_digit std_alphabet) (sextets bytes)
unfolding encode sextets
encode-map [] = refl
encode-map (a ∷ []) = refl
encode-map (a ∷ b ∷ []) = refl
encode-map (a ∷ b ∷ c ∷ rest) = rw (encode-map rest)

AllSextets : List ℕ → Type 0
AllSextets = All (λ v. v < 64)

sextets-AllSextets : (bytes : List ℕ) → All IsByte bytes → AllSextets (sextets bytes)
unfolding sextets AllSextets
sextets-AllSextets [] h = tt
sextets-AllSextets (a ∷ []) (ha, h) = (omega arith, (omega arith, tt))
sextets-AllSextets (a ∷ b ∷ []) (ha, (hb, h)) = (omega arith, (omega arith, (omega arith, tt)))
sextets-AllSextets (a ∷ b ∷ c ∷ rest) (ha, (hb, (hc, h))) =
    (omega arith, (omega arith, (omega arith, (omega arith, sextets-AllSextets rest h))))

digits-map :
    (vs : List ℕ)
    → AllSextets vs
    → digits std_alphabet (map (encode_digit std_alphabet) vs) ≡ some vs
unfolding AllSextets digits
digits-map [] h = refl
digits-map (v ∷ vs) (h, hs) = digits-step v _ vs h (digits-map vs hs)

byte_1 : (a b : ℕ) → b < 256 → a / 4 * 4 + (a % 4 * 16 + b / 16) / 16 ≡ a
byte_1 a b h = omega arith

byte_2 :
    (a b c : ℕ)
    → b < 256
    → c < 256
    → (a % 4 * 16 + b / 16) % 16 * 16 + (b % 16 * 4 + c / 64) / 4 ≡ b
byte_2 a b c h k = omega arith

byte_3 : (b c : ℕ) → c < 256 → (b % 16 * 4 + c / 64) % 4 * 64 + c % 64 ≡ c
byte_3 b c h = omega arith

join_digits-sextets :
    (bytes : List ℕ) → All IsByte bytes → join_digits std_alphabet (sextets bytes) ≡ some bytes
unfolding sextets join_digits
join_digits-sextets [] h = refl
join_digits-sextets (a ∷ []) (ha, h) = ground arith
join_digits-sextets (a ∷ b ∷ []) (ha, (hb, h)) = ground (arith, byte_1 a b hb, byte_2 a b 0 hb)
join_digits-sextets (a ∷ b ∷ c ∷ rest) (ha, (hb, (hc, h))) =
    ground (arith, join_digits-sextets rest h, byte_1 a b hb, byte_2 a b c hb hc, byte_3 b c hc)

-- Bytes that are encoded decode to themselves.
pub decode-encode :
    (bytes : List ℕ)
    → All IsByte bytes
    → decode std_alphabet (encode std_alphabet bytes) ≡ some bytes
unfolding decode
decode-encode bytes h = ground (
  arith,
  encode-map bytes,
  digits-map (sextets bytes) (sextets-AllSextets bytes h),
  join_digits-sextets bytes h,
)

abbrev pub IsPlain : ℕ → Type 0
IsPlain c = (c == b'$') ≡ false

IsPlain-map : (vs : List ℕ) → AllSextets vs → All IsPlain (map (encode_digit std_alphabet) vs)
unfolding AllSextets
IsPlain-map [] h = tt
IsPlain-map (v ∷ vs) (h, hs) = ((encode_digit-IsPlain v h).2, IsPlain-map vs hs)

-- No character of an encoding is `$`.
pub encode-IsPlain : (bytes : List ℕ) → All IsByte bytes → All IsPlain (encode std_alphabet bytes)
encode-IsPlain bytes h =
    rw (encode-map bytes) (IsPlain-map (sextets bytes) (sextets-AllSextets bytes h))

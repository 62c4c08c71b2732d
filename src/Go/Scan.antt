-- ===== src/Go/Scan.antt =====
-- `fmt.Sscanf` for literals and `%d`, over the runes of the input, and `%d` of `fmt.Sprintf`.
use gouncer.Base.{
  ℕ, suc, zero, ◌+◌, ◌-◌, ◌*◌, ◌/◌, ◌%◌, Bool, true, false, ◌&&◌, Option, none, some, List, [], ◌∷◌,
  ◌++◌, GoString, ltb, leb, ◌==◌, nat_eq, if◌then◌else◌,
}
use gouncer.Base.Int.{ℤ, pos, negsuc}
use gouncer.Go.Unicode.{is_space}

decimal_fuel : ℕ → ℕ → GoString
decimal_fuel zero n = []
decimal_fuel (suc fuel) n =
    if ltb n 10 then (48 + n) ∷ [] else decimal_fuel fuel (n / 10) ++ (48 + n % 10) ∷ []

-- A number in decimal. A number has at most as many digits as it counts, and one if it is 0.
unfoldable pub decimal : ℕ → GoString
unfolding decimal_fuel
decimal n = decimal_fuel (suc n) n

-- A step of the scan: what it read and the runes left, or `none` for an error.
abbrev pub Scan : Type 0 → Type 0
Scan A = List ℕ → Option (A × List ℕ)

-- `SkipSpace`, to which a line end is an error. A return before one is passed over as a space is.
unfoldable pub skip_space : List ℕ → Option (List ℕ)
unfolding is_space
skip_space [] = some []
skip_space (r ∷ rs) =
    let rest = skip_space rs in if r == 10 then none else if is_space r then rest else some (r ∷ rs)

abbrev pub is_digit : ℕ → Bool
is_digit r = leb 48 r && leb r 57

-- The digits at the front, added to the number read before them.
unfoldable pub scan_digits : ℕ → List ℕ → ℕ × List ℕ
scan_digits n [] = (n, [])
scan_digits n (r ∷ rs) =
    let rest = scan_digits (n * 10 + (r - 48)) rs in if is_digit r then rest else (n, r ∷ rs)

-- `scanNumber`, which wants a digit.
unfoldable pub scan_number : Scan ℕ
unfolding scan_digits
scan_number [] = none
scan_number (r ∷ rs) = if is_digit r then some (scan_digits 0 (r ∷ rs)) else none

-- `%d` into an unsigned number of `bits` bits
unfoldable pub scan_uint : ℕ → Scan ℕ
unfolding skip_space scan_number
scan_uint limit rs = elim (skip_space rs) [
  | none ↦ none
  | some left ↦ elim (scan_number left) [
    | none ↦ none
    | some (n, after) ↦ if ltb n limit then some (n, after) else none
  ]
]

-- A magnitude with its sign, if 64 bits hold it.
abbrev pub signed : Bool → ℕ → Option ℤ
signed false n = if ltb n 0x8000000000000000 then some (pos n) else none
signed true zero = some (pos zero)
signed true (suc n) = if ltb n 0x8000000000000000 then some (negsuc n) else none

abbrev pub after_sign : List ℕ → Bool × List ℕ
after_sign [] = (false, [])
after_sign (r ∷ rs) =
    if r == b'-' then (true, rs) else if r == b'+' then (false, rs) else (false, r ∷ rs)

-- `%d` into an `int`
unfoldable pub scan_int : Scan ℤ
unfolding skip_space scan_number
scan_int rs = elim (skip_space rs) [
  | none ↦ none
  | some left ↦
      let (negative, unsigned) = after_sign left in
      elim (scan_number unsigned) [
        | none ↦ none
        | some (n, after) ↦ elim (signed negative n) [ none ↦ none | some z ↦ some (z, after) ]
      ]
]

-- The literal text of a format.
unfoldable pub literal : GoString → List ℕ → Option (List ℕ)
literal [] rs = some rs
literal (c ∷ cs) [] = none
literal (c ∷ cs) (r ∷ rs) = let rest = literal cs rs in if c == r then rest else none

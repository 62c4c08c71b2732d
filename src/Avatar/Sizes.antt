-- ===== src/Avatar/Sizes.antt =====
-- The sizes of an image, and that every account has one.
use gouncer.Base.{
  ℕ, ◌≡◌, ◌≢◌, ◌≤◌, ◌<◌, ◌⊎◌, ◌↔◌, refl, Option, none, some, [], ◌∷◌, ◌++◌, leb, ◌&&◌,
  if◌then◌else◌, GoString, arith, ◌==◌, nat_eq, string_eq, Bool-cases, Option-cases, inl, inr,
  codes,
}
use gouncer.Base.Int.{ℤ, pos, negsuc}
use gouncer.Core.Results.{ok}
use gouncer.Go.Utf8.{runes}
use gouncer.Go.Strings.{trim_func}
use gouncer.Avatar.Unicode.{Tables, is_javascript_space}
use gouncer.Avatar.Initials.{initials_address}
use gouncer.Avatar.Gravatar.{email_hash, gravatar_query}
use gouncer.Avatar.Options.{Options, bounded, parse_size, sized, address}
use gouncer.Avatar.Colours.{AreRunes, initials_address-some}

bounded_within : (n : ℕ) → (n == bounded (pos n)) ≡ (leb 1 n && leb n 2048)
unfolding bounded
bounded_within n = ground arith

bounded_fixed : (n : ℕ) → 1 ≤ n → n ≤ 2048 → bounded (pos n) ≡ n
unfolding bounded
bounded_fixed n low high = ground arith

-- The text is empty and the size is the default, or it is a number within the bounds.
abbrev pub Names : (GoString → Option ℤ) → GoString → ℕ → Type 0
Names atoi value n =
    ((value ≡ []) × (n ≡ 96)) ⊎ ((value ≢ []) × (atoi value ≡ some (pos n)) × (1 ≤ n) × (n ≤ 2048))

sized_iff : (o : Option ℤ) (n : ℕ) → (sized o ≡ ok n) ↔ ((o ≡ some (pos n)) × (1 ≤ n) × (n ≤ 2048))
sized_iff none n = (λ a. absurd (ground arith), λ (b, _, _). absurd (ground arith))
sized_iff (some (negsuc k)) n = (λ a. absurd (ground arith), λ (b, _, _). absurd (ground arith))
sized_iff (some (pos k)) n =
    let within = bounded_within k in
    (λ a. (ground arith, ground arith, ground arith), λ (b, low, high). ground arith)

parse_size_iff :
    (atoi : GoString → Option ℤ) (value : GoString) (n : ℕ)
    → (parse_size atoi value ≡ ok n) ↔ Names atoi value n
unfolding parse_size
parse_size_iff atoi [] n = (
  λ a. inl (refl, ground arith),
  λ b. elim b [ inl (_, e) ↦ ground arith | inr (some_text, _, _, _) ↦ absurd (some_text refl) ],
)
parse_size_iff atoi (c ∷ cs) n =
    let whole = sized_iff (atoi (c ∷ cs)) n in
    (
      λ a. let (read, low, high) = whole.0 a in inr (λ e. ground arith, read, low, high),
      λ b. elim b [
        | inl (e, _) ↦ absurd (ground arith)
        | inr (_, read, low, high) ↦ whole.1 (read, low, high)
      ],
    )

-- `ParseSize` answers a size exactly when the text is empty and the size is 96, or the text is a number
-- from 1 to 2048 and the size is that number; and the address of an image of that size is the one of the
-- mode, drawn or asked for at that very size.
pub parse_size-address :
    (atoi : GoString → Option ℤ) (value : GoString) (n : ℕ)
    → ((parse_size atoi value ≡ ok n) ↔ Names atoi value n)
      × (Names atoi value n
          → (tables : Tables) (name email : GoString) (options : Options)
          → address tables name email (pos n) options ≡ (
              if options.mode == codes "off"
              then some []
              else if options.mode == codes "gravatar"
              then some (
                  codes "https://secure.gravatar.com/avatar/"
                  ++ email_hash tables email
                  ++ codes "?"
                  ++ gravatar_query tables name n options.default_image options.rating)
              else initials_address tables name n))
unfolding address
parse_size-address atoi value n = (
  parse_size_iff atoi value n,
  λ named tables name email options.
      let fixed : bounded (pos n) ≡ n = elim named [
        | inl (_, e) ↦ rw e (bounded_fixed 96 (omega arith) (omega arith))
        | inr (_, _, low, high) ↦ bounded_fixed n low high
      ] in
      rw fixed refl,
)

-- Every account has an address, whatever its name and email, the size asked for and the options: where
-- the runes of the trimmed name and their lower case are code points, no sum of the colour's hash leaves
-- 63 bits, so that it is not negative, and the palette holds the colour.
pub address-some :
    (tables : Tables) (name email : GoString) (size : ℤ) (options : Options)
    → ((r : ℕ) → r < 0x110000 → tables.to_lower r < 0x110000)
    → AreRunes (runes (trim_func is_javascript_space name))
    → (a : GoString) × (address tables name email size options ≡ some a)
unfolding address
address-some tables name email size options lower all =
    let (drawn, made) = initials_address-some tables name (bounded size) lower all in
    elim (Bool-cases (options.mode == codes "off")) [
      | inl off ↦ ([], rw off refl)
      | inr on ↦ elim (Bool-cases (options.mode == codes "gravatar")) [
        | inl sent ↦ elim (Option-cases (address tables name email size options)) [
          | inl missing ↦ let none_there = rw sent at (rw on at missing) in absurd (ground arith)
          | inr found ↦ found
        ]
        | inr letters ↦ (drawn, rw on (rw letters made))
      ]
    ]

-- ===== src/Core/Identity/Names.antt =====
-- What `cleanName` makes of a name, seen as its runes: a fold of spaces, trimmed.
use gouncer.Base.{
  ℕ, ◌≡◌, refl, ap, ◌∙◌, Bool, true, false, not, List, [], ◌∷◌, ◌++◌, GoString, arith,
  if◌then◌else◌, ltb, All, map, ◌==◌, nat_eq, string_eq, inl, inr, Bool-cases,
}
use mathlib.Core.List.{append_assoc, append-nil}
use gouncer.Go.Utf8.{runes, encode, encode_rune, valid_string}
use gouncer.Go.Utf8.Laws.{is_scalar, segments-encode, runes-scalar, encode-append}
use gouncer.Go.Strings.{drop_while, drop_end, trim_list, trim_func, join_bytes}
use gouncer.Core.Identity.{is_name_space, clean_step, clean_runes, is_trimmed_space, clean_name}

-- The runes that the loop still writes, once it has written something or not, a space due or not.
unfoldable pub fold_spaces : Bool → Bool → List ℕ → List ℕ
fold_spaces started due [] = []
fold_spaces started due (r ∷ rs) =
    let spaced = fold_spaces started started rs in
    let skipped = fold_spaces started due rs in
    let written = r ∷ fold_spaces true false rs in
    if is_name_space r
    then spaced
    else if ltb r 0x20
    then skipped
    else if due
    then 0x20 ∷ written
    else written

unfoldable pub nonempty : List ℕ → Bool
nonempty [] = false
nonempty (_ ∷ _) = true

encode-nonempty : (out : List ℕ) → not (encode out == []) ≡ nonempty out
unfolding encode encode_rune nonempty
encode-nonempty [] = ground arith
encode-nonempty (r ∷ rs) = ground arith

nonempty-snoc : (out : List ℕ) (r : ℕ) → nonempty (out ++ r ∷ []) ≡ true
unfolding nonempty
nonempty-snoc [] r = refl
nonempty-snoc (x ∷ xs) r = refl

encode-snoc : (out : List ℕ) (r : ℕ) → encode (out ++ r ∷ []) ≡ encode out ++ encode_rune r
encode-snoc out r =
    rw (encode-append out (r ∷ []))
      (ap (◌++◌ (encode out)) (unfold encode in append-nil (encode_rune r)))

space_bytes : encode_rune 0x20 ≡ 0x20 ∷ []
unfolding encode_rune
space_bytes = refl

step_space :
    (r : ℕ) (out : List ℕ) (due : Bool)
    → is_name_space r ≡ true
    → clean_step r (encode out) due ≡ (encode out, nonempty out)
unfolding clean_step
step_space r out due space = ground (arith, encode-nonempty out)

step_control :
    (r : ℕ) (out : List ℕ) (due : Bool)
    → is_name_space r ≡ false
    → ltb r 0x20 ≡ true
    → clean_step r (encode out) due ≡ (encode out, due)
unfolding clean_step
step_control r out due other control = ground arith

-- The runes written after a round that writes one.
abbrev written_runes : List ℕ → Bool → ℕ → List ℕ
written_runes out due r = (if due then out ++ 0x20 ∷ [] else out) ++ r ∷ []

step_written :
    (r : ℕ) (out : List ℕ) (due : Bool)
    → is_name_space r ≡ false
    → ltb r 0x20 ≡ false
    → clean_step r (encode out) due ≡ (encode (written_runes out due r), false)
unfolding clean_step
step_written r out true other visible =
    ground (arith, encode-snoc (out ++ 0x20 ∷ []) r, encode-snoc out 0x20, space_bytes)
step_written r out false other visible = ground (arith, encode-snoc out r)

written_rest :
    (out rs : List ℕ) (due : Bool) (r : ℕ)
    → written_runes out due r ++ fold_spaces (nonempty (written_runes out due r)) false rs
      ≡ out ++ (if due then 0x20 ∷ r ∷ fold_spaces true false rs else r ∷ fold_spaces true false rs)
written_rest out rs true r =
    rw (nonempty-snoc (out ++ 0x20 ∷ []) r)
      (append_assoc (out ++ 0x20 ∷ []) (r ∷ []) _ ∙ append_assoc out (0x20 ∷ []) _)
written_rest out rs false r = rw (nonempty-snoc out r) (append_assoc out (r ∷ []) _)

clean_runes-encode :
    (rs out : List ℕ) (due : Bool)
    → clean_runes rs (encode out) due ≡ encode (out ++ fold_spaces (nonempty out) due rs)
unfolding clean_runes fold_spaces
clean_runes-encode [] out due = rw (append-nil out)
clean_runes-encode (r ∷ rs) out due = elim (Bool-cases (is_name_space r)) [
  | inl space ↦
      rw (step_space r out due space) (rw space (clean_runes-encode rs out (nonempty out)))
  | inr other ↦ elim (Bool-cases (ltb r 0x20)) [
    | inl control ↦
        rw (step_control r out due other control)
          (rw other (rw control (clean_runes-encode rs out due)))
    | inr visible ↦ rw (step_written r out due other visible) (
        rw other (
          rw visible (
            clean_runes-encode rs (written_runes out due r) false
            ∙ ap encode (written_rest out rs due r))))
  ]
]

-- A property of runes that the folding keeps, and the trimming.
due-All {ℓ} :
    (P : ℕ → Type ℓ) (due : Bool) (r : ℕ) (rs : List ℕ)
    → P 0x20
    → P r
    → All P rs
    → All P (if due then 0x20 ∷ r ∷ rs else r ∷ rs)
due-All P true r rs space h hs = (space, (h, hs))
due-All P false r rs space h hs = (h, hs)

fold_spaces-All {ℓ} :
    (P : ℕ → Type ℓ) (started due : Bool) (rs : List ℕ)
    → P 0x20
    → All P rs
    → All P (fold_spaces started due rs)
unfolding fold_spaces
fold_spaces-All P started due [] space h = tt
fold_spaces-All P started due (r ∷ rs) space (h, hs) = elim (Bool-cases (is_name_space r)) [
  | inl folded ↦ rw folded (fold_spaces-All P started started rs space hs)
  | inr other ↦ rw other (elim (Bool-cases (ltb r 0x20)) [
    | inl control ↦ rw control (fold_spaces-All P started due rs space hs)
    | inr visible ↦
        rw visible (due-All P due r _ space h (fold_spaces-All P true false rs space hs))
  ])
]

module _ (p : ℕ → Bool) where
  drop_while-All {ℓ} : (P : ℕ → Type ℓ) (rs : List ℕ) → All P rs → All P (drop_while p rs)
  unfolding drop_while
  drop_while-All P [] h = tt
  drop_while-All P (r ∷ rs) (h, hs) = elim (Bool-cases (p r)) [
    | inl gone ↦ rw gone (drop_while-All P rs hs)
    | inr kept ↦ rw kept (h, hs)
  ]

  drop_end-All {ℓ} : (P : ℕ → Type ℓ) (rs : List ℕ) → All P rs → All P (drop_end p rs)
  unfolding drop_end
  drop_end-All P [] h = tt
  drop_end-All P (r ∷ rs) (h, hs) = last (drop_end p rs) (drop_end-All P rs hs)
    where
      last :
          (ts : List ℕ)
          → All P ts
          → All P (elim ts [ [] ↦ if p r then [] else r ∷ [] | y ∷ ys ↦ r ∷ y ∷ ys ])
      last [] ks = elim (Bool-cases (p r)) [ inl gone ↦ rw gone tt | inr kept ↦ rw kept (h, tt) ]
      last (y ∷ ys) ks = (h, ks)

  pub trim_list-All {ℓ} : (P : ℕ → Type ℓ) (rs : List ℕ) → All P rs → All P (trim_list p rs)
  unfolding trim_list
  trim_list-All P rs h = drop_end-All P _ (drop_while-All P rs h)

  -- Trimming a string that was written rune by rune.
  abbrev written : List ℕ → List (ℕ × GoString)
  written = map (λ r. (r, encode_rune r))

  abbrev on_rune : ℕ × GoString → Bool
  on_rune (r, _) = p r

  drop_while-written : (rs : List ℕ) → drop_while on_rune (written rs) ≡ written (drop_while p rs)
  unfolding drop_while
  drop_while-written [] = refl
  drop_while-written (r ∷ rs) = ground (arith, drop_while-written rs)

  drop_end-written : (rs : List ℕ) → drop_end on_rune (written rs) ≡ written (drop_end p rs)
  unfolding drop_end
  drop_end-written [] = refl
  drop_end-written (r ∷ rs) = ground (arith, drop_end-written rs)

  join_bytes-written : (rs : List ℕ) → join_bytes (written rs) ≡ encode rs
  unfolding join_bytes encode
  join_bytes-written [] = refl
  join_bytes-written (r ∷ rs) = ap (◌++◌ (encode_rune r)) (join_bytes-written rs)

  trim_func-encode :
      (rs : List ℕ)
      → All (λ r. is_scalar r ≡ true) rs
      → trim_func p (encode rs) ≡ encode (trim_list p rs)
  unfolding trim_func trim_list
  trim_func-encode rs valid =
      rw (segments-encode rs valid, drop_while-written rs, drop_end-written (drop_while p rs))
        (join_bytes-written _)

-- The runes of a cleaned name.
unfoldable pub cleaned : List ℕ → List ℕ
unfolding fold_spaces trim_list
cleaned rs = trim_list is_trimmed_space (fold_spaces false false rs)

pub cleaned-scalar : (name : GoString) → All (λ r. is_scalar r ≡ true) (cleaned (runes name))
unfolding cleaned
cleaned-scalar name =
    trim_list-All is_trimmed_space _ _
      (fold_spaces-All _ false false (runes name) refl (runes-scalar name))

loop_output :
    (name : GoString)
    → clean_runes (runes name) [] false ≡ encode (fold_spaces false false (runes name))
unfolding encode nonempty
loop_output name = clean_runes-encode (runes name) [] false

pub clean_name-encode :
    (name : GoString) → valid_string name ≡ true → clean_name name ≡ encode (cleaned (runes name))
unfolding clean_name cleaned
clean_name-encode name valid = rw valid (
    ap (trim_func is_trimmed_space) (loop_output name)
    ∙ trim_func-encode is_trimmed_space _
        (fold_spaces-All _ false false (runes name) refl (runes-scalar name)))

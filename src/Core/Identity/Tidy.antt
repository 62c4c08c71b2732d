-- ===== src/Core/Identity/Tidy.antt =====
-- A cleaned name is tidy, and cleaning it again changes nothing.
use gouncer.Base.{
  ℕ, ◌≤◌, ◌≡◌, refl, sym, ap, ◌∙◌, Bool, true, false, not, ◌&&◌, List, [], ◌∷◌, GoString, arith,
  if◌then◌else◌, contains, ◌==◌, nat_eq, ℕ_discrete, inl, inr, Bool-cases,
}
use gouncer.Go.Utf8.{runes, encode, valid_string}
use gouncer.Go.Utf8.Laws.{runes-encode, valid_string-encode}
use gouncer.Go.Strings.{drop_while, drop_end, trim_list}
use gouncer.Core.Identity.{is_name_space, is_trimmed_space, clean_name}
use gouncer.Core.Identity.Names.{fold_spaces, nonempty, cleaned, cleaned-scalar, clean_name-encode}

-- No rune is a control character below 0x20, and no space is behind a space, or at the front if
-- `prev` says so.
abbrev pub IsTidy : Bool → List ℕ → Type 0
IsTidy prev [] = Unit {0}
IsTidy prev (r ∷ rs) = (0x20 ≤ r) × ((r == 0x20 && prev) ≡ false) × IsTidy (r == 0x20) rs

-- The first, and the last, rune is none that is trimmed.
abbrev pub StartsClean : List ℕ → Type 0
StartsClean [] = Unit {0}
StartsClean (r ∷ rs) = is_trimmed_space r ≡ false

abbrev pub EndsClean : List ℕ → Type 0
EndsClean [] = Unit {0}
EndsClean (r ∷ []) = is_trimmed_space r ≡ false
EndsClean (r ∷ s ∷ rs) = EndsClean (s ∷ rs)

name_space_is_low : (r : ℕ) → 0x20 ≤ r → is_name_space r ≡ (r == 0x20)
unfolding contains ℕ_discrete
name_space_is_low r h = ground arith

fold_spaces-IsTidy :
    (started due : Bool) (rs : List ℕ)
    → (due && not started) ≡ false
    → IsTidy (not started) (fold_spaces started due rs)
unfolding fold_spaces contains
fold_spaces-IsTidy started due [] h = tt
fold_spaces-IsTidy started due (r ∷ rs) h = ground (
  arith,
  fold_spaces-IsTidy started started rs,
  fold_spaces-IsTidy started due rs h,
  fold_spaces-IsTidy true false rs refl,
)

space_is_trimmed : is_trimmed_space 0x20 ≡ true
unfolding is_trimmed_space ℕ_discrete
space_is_trimmed = refl

IsTidy-front :
    (prev : Bool) (r : ℕ) (rs : List ℕ)
    → is_trimmed_space r ≡ false
    → IsTidy prev (r ∷ rs)
    → IsTidy true (r ∷ rs)
IsTidy-front prev r rs kept (a, b, c) = (a, ground (arith, space_is_trimmed), c)

drop_while-IsTidy :
    (prev : Bool) (rs : List ℕ)
    → IsTidy prev rs
    → IsTidy true (drop_while is_trimmed_space rs) × StartsClean (drop_while is_trimmed_space rs)
unfolding drop_while
drop_while-IsTidy prev [] h = (tt, tt)
drop_while-IsTidy prev (r ∷ rs) h = elim (Bool-cases (is_trimmed_space r)) [
  | inl gone ↦ rw gone (drop_while-IsTidy (r == 0x20) rs h.2)
  | inr kept ↦ rw kept (IsTidy-front prev r rs kept h, kept)
]

drop_end-IsTidy :
    (prev : Bool) (rs : List ℕ)
    → IsTidy prev rs
    → IsTidy prev (drop_end is_trimmed_space rs) × EndsClean (drop_end is_trimmed_space rs)
unfolding drop_end
drop_end-IsTidy prev [] h = (tt, tt)
drop_end-IsTidy prev (r ∷ rs) (a, b, c) =
    last (drop_end is_trimmed_space rs) (drop_end-IsTidy (r == 0x20) rs c)
  where
    last :
        (ts : List ℕ)
        → IsTidy (r == 0x20) ts × EndsClean ts
        → let us : List ℕ = elim ts [
          | [] ↦ if is_trimmed_space r then [] else r ∷ []
          | y ∷ ys ↦ r ∷ y ∷ ys
        ] in
          IsTidy prev us × EndsClean us
    last [] k = elim (Bool-cases (is_trimmed_space r)) [
      | inl gone ↦ rw gone (tt, tt)
      | inr kept ↦ rw kept ((a, b, tt), kept)
    ]
    last (y ∷ ys) k = ((a, b, k.0), k.1)

drop_end-StartsClean : (rs : List ℕ) → StartsClean rs → StartsClean (drop_end is_trimmed_space rs)
unfolding drop_end
drop_end-StartsClean [] h = tt
drop_end-StartsClean (r ∷ rs) h = ground arith

cleaned-IsTidy :
    (rs : List ℕ) → IsTidy true (cleaned rs) × StartsClean (cleaned rs) × EndsClean (cleaned rs)
unfolding cleaned trim_list
cleaned-IsTidy rs =
    let front =
      drop_while-IsTidy true (fold_spaces false false rs)
        (fold_spaces-IsTidy false false rs refl) in
    let back = drop_end-IsTidy true _ front.0 in (back.0, drop_end-StartsClean _ front.1, back.1)

drop_while_clean : (rs : List ℕ) → StartsClean rs → drop_while is_trimmed_space rs ≡ rs
unfolding drop_while
drop_while_clean [] h = refl
drop_while_clean (r ∷ rs) h = rw h

drop_end_clean : (rs : List ℕ) → EndsClean rs → drop_end is_trimmed_space rs ≡ rs
unfolding drop_end
drop_end_clean [] h = refl
drop_end_clean (r ∷ []) h = rw h
drop_end_clean (r ∷ s ∷ rs) h = rw (drop_end_clean (s ∷ rs) h)

-- With a space due, tidy runes are written behind it.
abbrev behind : Bool → List ℕ → List ℕ
behind due rs = if due && nonempty rs then 0x20 ∷ rs else rs

fold_spaces_tidy :
    (prev started due : Bool) (rs : List ℕ)
    → (due && not prev) ≡ false
    → (not started && not prev) ≡ false
    → IsTidy prev rs
    → EndsClean rs
    → fold_spaces started due rs ≡ behind due rs
unfolding fold_spaces nonempty
fold_spaces_tidy prev started due [] d st tidy ends = ground arith
fold_spaces_tidy prev started due (r ∷ []) d st (a, b, c) ends =
    ground (arith, name_space_is_low r a, space_is_trimmed)
fold_spaces_tidy prev started due (r ∷ s ∷ rs) d st (a, b, c) ends = elim (Bool-cases (r == 0x20)) [
  | inl space ↦ rw (name_space_is_low r a) (
      rw space (
        fold_spaces_tidy (r == 0x20) started started (s ∷ rs) (ground arith) (ground arith) c ends
        ∙ ground arith))
  | inr visible ↦ rw (name_space_is_low r a) (
      rw visible
        (ground (arith, fold_spaces_tidy (r == 0x20) true false (s ∷ rs) refl refl c ends)))
]

cleaned_fixed : (rs : List ℕ) → IsTidy true rs → StartsClean rs → EndsClean rs → cleaned rs ≡ rs
unfolding cleaned trim_list
cleaned_fixed rs tidy front back =
    rw (fold_spaces_tidy true false false rs refl refl tidy back)
      (rw (drop_while_clean rs front) (drop_end_clean rs back))

-- Cleaning runes that are cleaned changes nothing.
cleaned_idem : (rs : List ℕ) → cleaned (cleaned rs) ≡ cleaned rs
cleaned_idem rs =
    let (tidy, front, back) = cleaned-IsTidy rs in cleaned_fixed (cleaned rs) tidy front back

-- A name that is valid UTF-8 is cleaned to runes none of which is a control character below 0x20 (those
-- from U+007F on stay), with no two spaces in a row, and with no trimmed space at either end; and
-- cleaning it again changes nothing.
pub clean_name-IsTidy :
    (name : GoString)
    → valid_string name ≡ true
    → IsTidy true (runes (clean_name name))
      × StartsClean (runes (clean_name name))
      × EndsClean (runes (clean_name name))
      × (clean_name (clean_name name) ≡ clean_name name)
clean_name-IsTidy name valid =
    let text = clean_name-encode name valid in
    let scalar = cleaned-scalar name in
    let again : valid_string (clean_name name) ≡ true = rw text (valid_string-encode _ scalar) in
    let back : runes (clean_name name) ≡ cleaned (runes name) = rw text (runes-encode _ scalar) in
    let (tidy, front, ends) = cleaned-IsTidy (runes name) in
    (
      rw back tidy,
      rw back front,
      rw back ends,
      clean_name-encode (clean_name name) again
          ∙ ap encode (ap cleaned back ∙ cleaned_idem (runes name))
          ∙ sym text,
    )

-- A name that is not valid UTF-8 is cleaned to nothing.
pub clean_name_invalid : (name : GoString) → valid_string name ≡ false → clean_name name ≡ []
unfolding clean_name
clean_name_invalid name invalid = rw invalid

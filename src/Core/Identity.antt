-- ===== src/Core/Identity.antt =====
-- gouncer.go and name.go: a new account from an email, a name and a password.
pub mod Names
pub mod Tidy
pub mod Accounts
use gouncer.Base.{
  ℕ, Bool, true, false, not, ◌&&◌, ◌||◌, Option, none, some, List, [], ◌∷◌, ◌++◌, GoString,
  if◌then◌else◌, length, ltb, leb, any, contains, ◌==◌, nat_eq, string_eq,
}
use gouncer.Go.Utf8.{runes, encode_rune, valid_string, rune_error}
use gouncer.Go.Unicode.{is_space, is_control}
use gouncer.Go.Strings.{trim_space, trim_func, contains_func, to_lower}
use gouncer.Core.Errors.{
  wrap, foreign, invalid_email, empty_name, weak_password, name_too_long, password_too_long,
}
use gouncer.Core.Results.{Result, ok, err, or_fail, bind}
use gouncer.Core.Platform.{Platform, Env}
use gouncer.Core.Types.{User}

abbrev pub min_password_length : ℕ
min_password_length = 12

abbrev pub max_password_length : ℕ
max_password_length = 1024

abbrev pub max_name_length : ℕ
max_name_length = 256

abbrev pub max_email_length : ℕ
max_email_length = 254

-- `strings.ContainsRune(" \t\n\r", r)`
abbrev pub is_name_space : ℕ → Bool
is_name_space r = contains (0x20 ∷ 0x09 ∷ 0x0A ∷ 0x0D ∷ []) r

-- One round of the loop of `cleanName`: what is written, and whether a space is due.
unfoldable pub clean_step : ℕ → GoString → Bool → GoString × Bool
unfolding contains
clean_step r cleaned due =
    if is_name_space r
    then (cleaned, not (cleaned == []))
    else if ltb r 0x20
    then (cleaned, due)
    else ((if due then cleaned ++ 0x20 ∷ [] else cleaned) ++ encode_rune r, false)

unfoldable pub clean_runes : List ℕ → GoString → Bool → GoString
unfolding clean_step
clean_runes [] cleaned due = cleaned
clean_runes (r ∷ rs) cleaned due =
    let (cleaned', due') = clean_step r cleaned due in clean_runes rs cleaned' due'

-- `isTrimmedSpace`
unfoldable pub is_trimmed_space : ℕ → Bool
unfolding is_space
is_trimmed_space r = not (r == 0x85) && is_space r

-- `cleanName`
unfoldable pub clean_name : GoString → GoString
unfolding clean_runes trim_func is_trimmed_space valid_string runes
clean_name name =
    if valid_string name then trim_func is_trimmed_space (clean_runes (runes name) [] false) else []

-- `SetPassword`, where `hash` is `hashPassword`
unfoldable pub set_password : (GoString → Result GoString) → User → GoString → Result User
set_password hash u password =
    if ltb (length (runes password)) min_password_length
    then err weak_password
    else if ltb max_password_length (length (runes password))
    then err password_too_long
    else bind (hash password) (λ h. ok (record u { password_hash = h }))

module _ (platform : Platform) where
  open platform use {parse_address, to_lower as lower_rune}

  -- `lowersToASCII`
  unfoldable pub lowers_to_ascii : ℕ → Bool
  lowers_to_ascii r = ltb 0x7F r && leb (lower_rune r) 0x7F

  -- Whether `mail.ParseAddress` reads the text as that very address.
  abbrev parses_as_itself : GoString → Bool
  parses_as_itself email = elim (parse_address email) [ none ↦ false | some a ↦ a == email ]

  -- `isValidEmail`
  unfoldable pub is_valid_email : GoString → Bool
  is_valid_email email =
      if ltb max_email_length (length email)
      then false
      else parses_as_itself email
        && (not (contains_func is_control email)
            && not (contains_func (λ r. r == rune_error) email))

  -- The account that `newIdentity` returns when every check passes.
  abbrev identity : ℕ → GoString → GoString → ℕ → User
  identity id email name now = record {
    id = id;
    email = email;
    name = name;
    password_hash = [];
    disabled = false;
    confirmed = false;
    role = [];
    created_at = now;
  }

  -- `newIdentity`
  unfoldable pub new_identity : Env → GoString → GoString → Result User
  unfolding is_valid_email lowers_to_ascii
  new_identity env email name =
      let trimmed = trim_space email in
      let normalized = to_lower lower_rune trimmed in
      let cleaned = clean_name name in
      if not (is_valid_email trimmed) || contains_func lowers_to_ascii trimmed
      then err invalid_email
      else if not (is_valid_email normalized)
      then err invalid_email
      else if cleaned == []
      then err empty_name
      else if ltb max_name_length (length (runes cleaned))
      then err name_too_long
      else bind (or_fail env.new_id (wrap (foreign 1)))
          (λ id. ok (identity id normalized cleaned env.now))

  -- `NewInvitedUser`
  unfoldable pub new_invited_user : Env → GoString → GoString → Result User
  unfolding new_identity
  new_invited_user = new_identity

  -- `NewUser`, where `hash` is `hashPassword`
  unfoldable pub new_user :
      (GoString → Result GoString) → Env → GoString → GoString → GoString → Result User
  unfolding new_identity
  new_user hash env email name password =
      bind (new_identity env email name)
        λ u. bind (set_password hash u password) λ v. ok (record v { confirmed = true })

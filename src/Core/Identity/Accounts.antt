-- ===== src/Core/Identity/Accounts.antt =====
-- What a new account is: its fields, the bounds on them, and where its email comes from.
use gouncer.Base.{
  ℕ, ◌≤◌, ◌≡◌, ◌≢◌, true, false, some, List, [], ◌∷◌, GoString, arith, length, All, any, map, inl,
  inr, string_eq,
}
use gouncer.Go.Utf8.{runes}
use gouncer.Go.Utf8.Laws.{is_scalar, runes-encode, runes-scalar}
use gouncer.Go.Strings.{trim_space, to_lower, contains_func}
use gouncer.Core.Results.{Result, ok, Result-cases}
use gouncer.Core.Platform.{Platform, Env}
use gouncer.Core.Types.{User}
use gouncer.Core.Identity.{
  clean_name, lowers_to_ascii, is_valid_email, new_identity, set_password, new_user,
}

module _ (platform : Platform) where
  open platform use {to_lower as lower_rune}

  -- What `newIdentity` fixes of the account it returns.
  pub record IsIdentity (env : Env) (email name : GoString) (u : User) : Type 0 where
    pub own_id : env.new_id ≡ some u.id
    pub own_email : u.email ≡ to_lower lower_rune (trim_space email)
    pub email_valid : is_valid_email platform u.email ≡ true
    pub email_safe : contains_func (lowers_to_ascii platform) (trim_space email) ≡ false
    pub own_name : u.name ≡ clean_name name
    pub name_given : u.name ≢ []
    pub name_bounded : length (runes u.name) ≤ 256
    pub enabled : u.disabled ≡ false
    pub roleless : u.role ≡ []
    pub created : u.created_at ≡ env.now

  pub new_identity-IsIdentity :
      (env : Env) (email name : GoString) (u : User)
      → new_identity platform env email name ≡ ok u
      → IsIdentity env email name u × (u.confirmed ≡ false) × (u.password_hash ≡ [])
  unfolding new_identity
  new_identity-IsIdentity env email name u h = (
    record {
      own_id = ground arith;
      own_email = ground arith;
      email_valid = ground arith;
      email_safe = ground arith;
      own_name = ground arith;
      name_given = λ e. ground arith;
      name_bounded = ground arith;
      enabled = ground arith;
      roleless = ground arith;
      created = ground arith;
    },
    ground arith,
    ground arith,
  )

  -- An account that `NewUser` returns is confirmed, enabled and holds no role; its id is the fresh
  -- one, its email the text given, trimmed and lowered, and valid; its name is the cleaned one, of 1 to
  -- 256 runes; the password has 12 to 1024 runes, and its hash is the account's.
  pub new_user-IsIdentity :
      (hash : GoString → Result GoString) (env : Env) (email name password : GoString) (u : User)
      → new_user platform hash env email name password ≡ ok u
      → IsIdentity env email name u
        × (u.confirmed ≡ true)
        × (hash password ≡ ok u.password_hash)
        × (12 ≤ length (runes password))
        × (length (runes password) ≤ 1024)
  unfolding new_user set_password
  new_user-IsIdentity hash env email name password u h =
      elim (Result-cases (new_identity platform env email name)) [
        | inl (e, failed) ↦ absurd (ground arith)
        | inr (v, made) ↦
            let (own, confirmed, hashless) = new_identity-IsIdentity env email name v made in
            (
              record {
                own_id = ground (arith, own.own_id);
                own_email = ground (arith, own.own_email);
                email_valid = ground arith;
                email_safe = own.email_safe;
                own_name = ground arith;
                name_given = λ e. ground arith;
                name_bounded = ground arith;
                enabled = ground arith;
                roleless = ground arith;
                created = ground arith;
              },
              ground arith,
              ground arith,
              ground arith,
              ground arith,
            )
      ]

module _ (platform : Platform) where
  open platform use {to_lower as lower_rune}

  abbrev pub IsAscii : List ℕ → Type 0
  IsAscii = All (λ r. r ≤ 0x7F)

  lowered_scalar :
      (rs : List ℕ)
      → ((r : ℕ) → is_scalar r ≡ true → is_scalar (lower_rune r) ≡ true)
      → All (λ r. is_scalar r ≡ true) rs
      → All (λ r. is_scalar r ≡ true) (map lower_rune rs)
  lowered_scalar [] lowers h = tt
  lowered_scalar (r ∷ rs) lowers (h, hs) = (lowers r h, lowered_scalar rs lowers hs)

  IsAscii-before :
      (rs : List ℕ)
      → any (lowers_to_ascii platform) rs ≡ false
      → IsAscii (map lower_rune rs)
      → IsAscii rs
  unfolding any lowers_to_ascii
  IsAscii-before [] none_folds h = tt
  IsAscii-before (r ∷ rs) none_folds (h, hs) = (ground arith, IsAscii-before rs (ground arith) hs)

  -- No look-alike takes an ASCII address: an account whose email is all ASCII was made from a text
  -- that, trimmed, is all ASCII. The lower case of a scalar value is one.
  pub new_identity-IsAscii :
      (env : Env) (email name : GoString) (u : User)
      → ((r : ℕ) → is_scalar r ≡ true → is_scalar (lower_rune r) ≡ true)
      → new_identity platform env email name ≡ ok u
      → IsAscii (runes u.email)
      → IsAscii (runes (trim_space email))
  unfolding contains_func to_lower
  new_identity-IsAscii env email name u lowers made ascii =
      let (own, _, _) = new_identity-IsIdentity platform env email name u made in
      let text = trim_space email in
      let back : runes u.email ≡ map lower_rune (runes text) =
        rw own.own_email
          (runes-encode _ (lowered_scalar (runes text) lowers (runes-scalar text))) in
      IsAscii-before (runes text) own.email_safe (rw back at ascii)

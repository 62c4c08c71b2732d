-- ===== src/Core/Examples.antt =====
-- The theorems about the root package, applied to one account, and the functions they take.
use gouncer.Base.{
  ℕ, zero, suc, ◌+◌, ◌%◌, ◌≡◌, refl, sym, true, false, ◌&&◌, some, [], ◌∷◌, GoString, arith, codes,
  leb, if◌then◌else◌, ◌==◌, string_dec, ℕ_discrete, nat_eq, string_eq,
}
use gouncer.Go.Utf8.{runes}
use gouncer.Go.Utf8.Laws.{is_scalar}
use gouncer.Go.Strings.{trim_space, contains_func, to_lower}
use gouncer.Go.Unicode.{is_control}
use gouncer.Core.Results.{ok}
use gouncer.Core.Platform.{Platform, Env}
use gouncer.Core.Types.{User}
use gouncer.Core.Identity.{clean_name, set_password, new_identity, new_user}
use gouncer.Core.Identity.Tidy.{clean_name-IsTidy, IsTidy}
use gouncer.Core.Identity.Accounts.{IsIdentity, IsAscii, new_user-IsIdentity, new_identity-IsAscii}
use gouncer.Core.Password.{hash_password, verify_password, phc}
use gouncer.Core.Password.RoundTrip.{Writes, verify_password-hash_password}

-- As many bytes as asked for: those of the text, then zeros.
abbrev pub digest : ℕ → GoString → GoString
digest zero word = []
digest (suc n) [] = 0 ∷ digest n []
digest (suc n) (c ∷ word) = c % 256 ∷ digest n word

pub digest-Writes : (n : ℕ) (word : GoString) → Writes n (digest n word)
digest-Writes zero word = (tt, refl)
digest-Writes (suc n) [] =
    let (bytes, long) = digest-Writes n [] in ((omega arith, bytes), ground arith)
digest-Writes (suc n) (c ∷ word) =
    let (bytes, long) = digest-Writes n word in ((omega arith, bytes), ground arith)

abbrev pub ascii_lower : ℕ → ℕ
ascii_lower r = if leb 65 r && leb r 90 then r + 32 else r

abbrev pub plain_platform : Platform
plain_platform = record {
  sha256 = digest 32;
  argon2_key = λ password salt t m p n. digest n password;
  parse_address = some;
  to_lower = ascii_lower;
}

abbrev pub first_env : Env
first_env = record { now = 1000; random = λ n. some (digest n (codes "entropy")); new_id = some 7 }

pub random-Writes : (n : ℕ) (bytes : GoString) → first_env.random n ≡ some bytes → Writes n bytes
random-Writes n bytes drawn =
    let same : digest n (codes "entropy") ≡ bytes = ground arith in
    rw (sym same) (digest-Writes n (codes "entropy"))

pub key-Writes :
    (word salt : GoString) (t m p n : ℕ) → Writes n (plain_platform.argon2_key word salt t m p n)
key-Writes word salt t m p n = digest-Writes n word

lower_scalar : (r : ℕ) → is_scalar r ≡ true → is_scalar (ascii_lower r) ≡ true
unfolding is_scalar
lower_scalar r h = ground arith

clean_name-IsTidy_example : IsTidy true (runes (clean_name (codes " Ada  L. ")))
unfolding clean_name ℕ_discrete
clean_name-IsTidy_example = (clean_name-IsTidy (codes " Ada  L. ") refl).0

abbrev ada : User
ada = record {
  id = 7;
  email = codes "ada@example.org";
  name = codes "Ada L";
  password_hash = phc (digest 16 (codes "entropy")) (digest 32 (codes "correct horse"));
  disabled = false;
  confirmed = true;
  role = [];
  created_at = 1000;
}

-- The same account before its password.
abbrev nameless : User
nameless = record ada { password_hash = []; confirmed = false }

ada-made :
    new_user plain_platform
      (hash_password plain_platform first_env)
      first_env
      (codes " Ada@Example.org ")
      (codes "Ada  L")
      (codes "correct horse")
    ≡ ok ada
unfolding new_user trim_space ℕ_discrete string_dec contains_func is_control to_lower clean_name
    set_password hash_password
ada-made = refl

identity-made :
    new_identity plain_platform first_env (codes " Ada@Example.org ") (codes "Ada  L") ≡ ok nameless
unfolding new_identity trim_space ℕ_discrete string_dec contains_func is_control to_lower clean_name
identity-made = refl

new_user-IsIdentity_example :
    IsIdentity plain_platform first_env (codes " Ada@Example.org ") (codes "Ada  L") ada
new_user-IsIdentity_example =
    (new_user-IsIdentity plain_platform (hash_password plain_platform first_env) first_env
      (codes " Ada@Example.org ") (codes "Ada  L") (codes "correct horse") ada ada-made).0

ada-IsAscii : IsAscii plain_platform (runes nameless.email)
unfolding runes ℕ_discrete
ada-IsAscii = (
  omega arith,
  (
    omega arith,
    (
      omega arith,
      (
        omega arith,
        (
          omega arith,
          (
            omega arith,
            (
              omega arith,
              (
                omega arith,
                (
                  omega arith,
                  (
                    omega arith,
                    (omega arith, (omega arith, (omega arith, (omega arith, (omega arith, tt))))),
                  ),
                ),
              ),
            ),
          ),
        ),
      ),
    ),
  ),
)

new_identity-IsAscii_example :
    IsAscii plain_platform (runes (trim_space (codes " Ada@Example.org ")))
unfolding trim_space ℕ_discrete
new_identity-IsAscii_example =
    new_identity-IsAscii plain_platform first_env (codes " Ada@Example.org ") (codes "Ada  L")
      nameless lower_scalar identity-made ada-IsAscii

hash : GoString
unfolding phc
hash = phc (digest 16 (codes "entropy")) (digest 32 (codes "correct horse"))

hash-made : hash_password plain_platform first_env (codes "correct horse") ≡ ok hash
unfolding hash_password hash
hash-made = refl

verify_password-hash_password_example :
    (salt : GoString) × (first_env.random 16 ≡ some salt)
    × (verify_password plain_platform hash (codes "correct horse") ≡ true)
    × ((word : GoString)
        → verify_password plain_platform hash word ≡ (
            plain_platform.argon2_key word salt 2 19456 1 32
            == plain_platform.argon2_key (codes "correct horse") salt 2 19456 1 32))
verify_password-hash_password_example =
    verify_password-hash_password plain_platform first_env (codes "correct horse") hash
      random-Writes key-Writes hash-made

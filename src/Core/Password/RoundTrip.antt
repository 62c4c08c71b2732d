-- ===== src/Core/Password/RoundTrip.antt =====
-- A hash that `hashPassword` writes is one that `VerifyPassword` reads.
use gouncer.Base.{
  ℕ, ◌≡◌, refl, ◌∙◌, ap, ◌≢◌, ℕ_discrete, true, some, [], ◌∷◌, ◌++◌, GoString, arith, codes, length,
  All, ◌==◌, nat_eq, string_eq, eq_refl, Option-cases, inl, inr,
}
use gouncer.Go.Base64.{std_alphabet, encode}
use gouncer.Go.Base64.Laws.{IsByte, IsPlain, decode-encode, encode-IsPlain}
use gouncer.Go.Strings.{split}
use gouncer.Core.Results.{ok}
use gouncer.Core.Platform.{Platform, Env}
use gouncer.Core.Password.{
  phc, version_field, cost_field, decode_argon_fields, parse_argon_hash, parse_parts,
  within_argon_envelope, is_version, scan_costs, hash_password, verify_password,
}

split-IsPlain : (s t : GoString) → All IsPlain s → split b'$' (s ++ b'$' ∷ t) ≡ s ∷ split b'$' t
unfolding split ℕ_discrete
split-IsPlain [] t h = refl
split-IsPlain (c ∷ s) t (h, hs) = ground (arith, split-IsPlain s t hs)

split-last : (s : GoString) → All IsPlain s → split b'$' s ≡ s ∷ []
unfolding split
split-last [] h = refl
split-last (c ∷ s) (h, hs) = ground (arith, split-last s hs)

argon2id-IsPlain : All IsPlain (codes "argon2id")
unfolding ℕ_discrete
argon2id-IsPlain = (refl, (refl, (refl, (refl, (refl, (refl, (refl, (refl, tt))))))))

version_field-IsPlain : All IsPlain version_field
unfolding version_field ℕ_discrete
version_field-IsPlain = (refl, (refl, (refl, (refl, tt))))

cost_field-IsPlain : All IsPlain cost_field
unfolding cost_field ℕ_discrete
cost_field-IsPlain = (
  refl,
  (
    refl,
    (
      refl,
      (
        refl,
        (refl, (refl, (refl, (refl, (refl, (refl, (refl, (refl, (refl, (refl, (refl, tt))))))))))),
      ),
    ),
  ),
)

split-fields :
    (salt key : GoString)
    → All IsByte salt
    → All IsByte key
    → split b'$' (encode std_alphabet salt ++ b'$' ∷ encode std_alphabet key)
      ≡ encode std_alphabet salt ∷ encode std_alphabet key ∷ []
split-fields salt key hs hk =
    split-IsPlain _ (encode std_alphabet key) (encode-IsPlain salt hs)
    ∙ ap (◌∷◌ (encode std_alphabet salt)) (split-last _ (encode-IsPlain key hk))

split-phc :
    (salt key : GoString)
    → All IsByte salt
    → All IsByte key
    → split b'$' (phc salt key)
      ≡ []
        ∷ codes "argon2id"
        ∷ version_field
        ∷ cost_field
        ∷ encode std_alphabet salt
        ∷ encode std_alphabet key
        ∷ []
unfolding phc
split-phc salt key hs hk =
    split-IsPlain [] _ tt
    ∙ ap (◌∷◌ []) (
        split-IsPlain (codes "argon2id") _ argon2id-IsPlain
        ∙ ap (◌∷◌ (codes "argon2id")) (
            split-IsPlain version_field _ version_field-IsPlain
            ∙ ap (◌∷◌ version_field) (
                split-IsPlain cost_field _ cost_field-IsPlain
                ∙ ap (◌∷◌ cost_field) (split-fields salt key hs hk))))

decode_argon_fields-encode :
    (salt key : GoString)
    → All IsByte salt
    → All IsByte key
    → salt ≢ []
    → key ≢ []
    → decode_argon_fields (encode std_alphabet salt) (encode std_alphabet key) ≡ some (salt, key)
unfolding decode_argon_fields
decode_argon_fields-encode salt key hs hk ns nk =
    ground (arith, decode-encode salt hs, decode-encode key hk)

is_version-version_field : is_version version_field ≡ true
unfolding is_version version_field ℕ_discrete
is_version-version_field = refl

scan_costs-cost_field :
    scan_costs cost_field
    ≡ some record { memory_kib = 19456; time_cost = 2; threads = 1; salt = []; key = [] }
unfolding scan_costs cost_field ℕ_discrete
scan_costs-cost_field = refl

parse_argon_hash-phc :
    (salt key : GoString)
    → All IsByte salt
    → All IsByte key
    → salt ≢ []
    → key ≢ []
    → parse_argon_hash (phc salt key)
      ≡ some record { memory_kib = 19456; time_cost = 2; threads = 1; salt = salt; key = key }
unfolding parse_argon_hash parse_parts within_argon_envelope
parse_argon_hash-phc salt key hs hk ns nk = ground (
  arith,
  split-phc salt key hs hk,
  is_version-version_field,
  scan_costs-cost_field,
  decode_argon_fields-encode salt key hs hk ns nk,
)

verify_password-phc :
    (platform : Platform) (salt key word : GoString)
    → All IsByte salt
    → All IsByte key
    → salt ≢ []
    → key ≢ []
    → verify_password platform (phc salt key) word
      ≡ (platform.argon2_key word salt 2 19456 1 (length key) == key)
unfolding verify_password
verify_password-phc platform salt key word hs hk ns nk =
    ground (arith, parse_argon_hash-phc salt key hs hk ns nk)

-- What the random source and argon2 write: as many bytes as they are asked for.
abbrev pub Writes : ℕ → GoString → Type 0
Writes n bytes = All IsByte bytes × (length bytes ≡ n)

-- A hash that `hashPassword` returns matches its password, and matches another password exactly when
-- argon2 derives the same key from both under the salt of the hash. The random source and argon2
-- write as many bytes as they are asked for.
pub verify_password-hash_password :
    (platform : Platform) (env : Env) (password hash : GoString)
    → ((n : ℕ) (bytes : GoString) → env.random n ≡ some bytes → Writes n bytes)
    → ((word salt : GoString) (t m p n : ℕ) → Writes n (platform.argon2_key word salt t m p n))
    → hash_password platform env password ≡ ok hash
    → (salt : GoString) × (env.random 16 ≡ some salt)
      × (verify_password platform hash password ≡ true)
      × ((word : GoString)
          → verify_password platform hash word ≡ (
              platform.argon2_key word salt 2 19456 1 32
              == platform.argon2_key password salt 2 19456 1 32))
unfolding hash_password
verify_password-hash_password platform env password hash random_writes key_writes made =
    elim (Option-cases (env.random 16)) [
      | inl failed ↦ absurd (ground arith)
      | inr (salt, drawn) ↦
          let key = platform.argon2_key password salt 2 19456 1 32 in
          let (hs, salt_length) = random_writes 16 salt drawn in
          let (hk, key_length) = key_writes password salt 2 19456 1 32 in
          let written : hash ≡ phc salt key = ground arith in
          let verified : (word : GoString)
              → verify_password platform hash word
                ≡ (platform.argon2_key word salt 2 19456 1 32 == key) =
            λ word. rw written (
              rw
                (verify_password-phc platform salt key word hs hk (λ e. ground arith)
                  (λ e. ground arith))
                (rw key_length refl)) in
          (salt, drawn, verified password ∙ eq_refl key, verified)
    ]

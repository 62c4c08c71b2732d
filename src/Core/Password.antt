-- ===== src/Core/Password.antt =====
-- password.go: hashing with argon2id in PHC format, and checking a password against such a hash.
pub mod RoundTrip
use gouncer.Base.{
  ℕ, Bool, true, false, ◌&&◌, not, Option, none, some, List, [], ◌∷◌, ◌++◌, GoString, codes, length,
  leb, ◌==◌, nat_eq, string_eq, if◌then◌else◌,
}
use gouncer.Base.Int.{ℤ, pos, negsuc}
use gouncer.Go.Base64.{std_alphabet, encode, decode}
use gouncer.Go.Utf8.{runes}
use gouncer.Go.Strings.{split}
use gouncer.Go.Scan.{decimal, literal, scan_int, scan_uint}
use gouncer.Core.Errors.{wrap, foreign}
use gouncer.Core.Results.{Result, ok, or_fail, bind}
use gouncer.Core.Platform.{Platform, Env}

abbrev pub argon_memory_kib : ℕ
argon_memory_kib = 19456

abbrev pub argon_time : ℕ
argon_time = 2

abbrev pub argon_threads : ℕ
argon_threads = 1

abbrev pub argon_salt_length : ℕ
argon_salt_length = 16

abbrev pub argon_key_length : ℕ
argon_key_length = 32

abbrev pub max_argon_memory_kib : ℕ
max_argon_memory_kib = 1048576

abbrev pub max_argon_time : ℕ
max_argon_time = 32

abbrev pub max_argon_threads : ℕ
max_argon_threads = 16

-- `argon2.Version`
abbrev pub argon_version : ℕ
argon_version = 0x13

-- The fields of a hash up to the salt: "$argon2id$v=19$m=19456,t=2,p=1$".
unfoldable pub version_field : GoString
unfolding decimal
version_field = codes "v=" ++ decimal argon_version

unfoldable pub cost_field : GoString
unfolding decimal
cost_field =
    codes "m="
    ++ decimal argon_memory_kib
    ++ codes ",t="
    ++ decimal argon_time
    ++ codes ",p="
    ++ decimal argon_threads

-- The text that `hashPassword` formats.
unfoldable pub phc : GoString → GoString → GoString
unfolding version_field cost_field encode
phc salt key =
    codes "$argon2id$"
    ++ version_field
    ++ b'$' ∷ cost_field
    ++ b'$' ∷ encode std_alphabet salt
    ++ b'$' ∷ encode std_alphabet key

-- `argonParams`
pub record ArgonParams : Type 0 where
  pub memory_kib : ℕ
  pub time_cost : ℕ
  pub threads : ℕ
  pub salt : GoString
  pub key : GoString

-- `withinArgonEnvelope`
unfoldable pub within_argon_envelope : ArgonParams → Bool
within_argon_envelope p =
    leb 1 p.time_cost
    && leb p.time_cost max_argon_time
    && (leb 1 p.threads && leb p.threads max_argon_threads)
    && (leb 1 p.memory_kib && leb p.memory_kib max_argon_memory_kib)

-- A field that base64 writes and that is not empty.
abbrev pub decoded_field : GoString → Option GoString
decoded_field raw = elim (decode std_alphabet raw) [
  | none ↦ none
  | some bytes ↦ if bytes == [] then none else some bytes
]

-- `decodeArgonFields`
unfoldable pub decode_argon_fields : GoString → GoString → Option (GoString × GoString)
unfolding decode
decode_argon_fields raw_salt raw_key = elim (decoded_field raw_salt) [
  | none ↦ none
  | some salt ↦ elim (decoded_field raw_key) [ none ↦ none | some key ↦ some (salt, key) ]
]

-- `fmt.Sscanf(field, "v=%d", &version)` with the test of the version
unfoldable pub is_version : GoString → Bool
unfolding runes literal scan_int
is_version field = elim (literal (codes "v=") (runes field)) [
  | none ↦ false
  | some left ↦ elim (scan_int left) [
    | none ↦ false
    | some (pos n, after) ↦ n == argon_version
    | some (negsuc n, after) ↦ false
  ]
]

-- One number of the costs, after its literal.
unfoldable pub scan_cost : GoString → ℕ → List ℕ → Option (ℕ × List ℕ)
unfolding literal scan_uint
scan_cost text limit rs = elim (literal text rs) [ none ↦ none | some left ↦ scan_uint limit left ]

-- `fmt.Sscanf(field, "m=%d,t=%d,p=%d", ...)` into two numbers of 32 bits and one of 8
unfoldable pub scan_costs : GoString → Option ArgonParams
unfolding runes scan_cost
scan_costs field = elim (scan_cost (codes "m=") 0x100000000 (runes field)) [
  | none ↦ none
  | some (m, rs) ↦ elim (scan_cost (codes ",t=") 0x100000000 rs) [
    | none ↦ none
    | some (t, rs') ↦ elim (scan_cost (codes ",p=") 0x100 rs') [
      | none ↦ none
      | some (p, after) ↦
          some record { memory_kib = m; time_cost = t; threads = p; salt = []; key = [] }
    ]
  ]
]

-- `parseArgonHash` after the split
unfoldable pub parse_parts : List GoString → Option ArgonParams
unfolding is_version scan_costs within_argon_envelope decode_argon_fields
parse_parts (_ ∷ name ∷ version ∷ costs ∷ raw_salt ∷ raw_key ∷ []) =
    if not (name == codes "argon2id")
    then none
    else if not (is_version version)
    then none
    else elim (scan_costs costs) [
      | none ↦ none
      | some p ↦
          if not (within_argon_envelope p)
          then none
          else elim (decode_argon_fields raw_salt raw_key) [
            | none ↦ none
            | some (salt, key) ↦ some (record p { salt = salt; key = key })
          ]
    ]
parse_parts parts = none

-- `parseArgonHash`
unfoldable pub parse_argon_hash : GoString → Option ArgonParams
unfolding split parse_parts
parse_argon_hash hash = parse_parts (split b'$' hash)

module _ (platform : Platform) where
  -- `hashPassword`
  unfoldable pub hash_password : Env → GoString → Result GoString
  unfolding phc
  hash_password env password =
      bind (or_fail (env.random argon_salt_length) (wrap (foreign 4))) λ salt.
        let key =
          platform.argon2_key password salt argon_time argon_memory_kib argon_threads
            argon_key_length in
        ok (phc salt key)

  -- `VerifyPassword`
  unfoldable pub verify_password : GoString → GoString → Bool
  unfolding parse_argon_hash
  verify_password hash password = elim (parse_argon_hash hash) [
    | none ↦ false
    | some p ↦
        platform.argon2_key password p.salt p.time_cost p.memory_kib p.threads (length p.key)
        == p.key
  ]

-- ===== src/Testkit/Sweeping.antt =====
-- What the sweep of expired tokens removes.
use gouncer.Base.{
  ℕ, ◌≡◌, refl, ◌≢◌, Bool, false, not, ◌&&◌, ◌||◌, none, some, List, [], ◌∷◌, GoString, arith,
  nat_eq, string_eq, inl, inr, ◌==◌, Option-cases, ltb, if◌then◌else◌, contains,
}
use gouncer.Base.Dict
use gouncer.Base.Dict.{Dict}
use gouncer.Core.Results.{ok}
use gouncer.Core.Types.{Token, purpose_invite}
use gouncer.Testkit.State.{Store}
use gouncer.Testkit.Guard.{token_of}
use gouncer.Testkit.Tokens.{live_for, drop_tokens}
use gouncer.Testkit.Sweep.{
  token_expired, holds_live_invite, drop_stranded, stranded, drop_all, delete_expired_tokens,
}
use gouncer.Testkit.Cases.{delete_expired_tokens_cases}
use gouncer.Testkit.WellFormed.{IsWellFormed, drop_tokens-IsWellFormed}
use gouncer.Testkit.Invariant.{drop_stranded-IsWellFormed}

-- An unconfirmed account with no live invite.
abbrev pub is_lost : ℕ → Store → ℕ → Bool
is_lost now s k = elim (Dict.lookup k s.users) [
  | none ↦ false
  | some u ↦ not u.confirmed && not (holds_live_invite k now s)
]

drop_stranded-users :
    (now k id : ℕ) (s : Store)
    → IsWellFormed s
    → Dict.lookup k (drop_stranded id now s).users
      ≡ (if k == id && is_lost now s k then none else Dict.lookup k s.users)
unfolding drop_stranded
drop_stranded-users now k id s w =
    ground (arith, Dict.lookup-delete k id s.users w.users_keyed.nodup)

drop_stranded_other :
    (now k id : ℕ) (s : Store)
    → k ≢ id
    → holds_live_invite k now (drop_stranded id now s) ≡ holds_live_invite k now s
unfolding drop_stranded holds_live_invite
drop_stranded_other now k id s apart = ground (
  arith,
  Dict.any-delete_func (live_for k purpose_invite now) (token_of id) s.tokens
      (λ hash t live. ground arith),
)

drop_stranded_kept :
    (now id : ℕ) (s : Store) → is_lost now s id ≡ false → drop_stranded id now s ≡ s
unfolding drop_stranded
drop_stranded_kept now id s kept = ground arith

drop_all-users :
    (now k : ℕ) (ids : List ℕ) (s : Store)
    → IsWellFormed s
    → Dict.lookup k (drop_all ids now s).users
      ≡ (if contains ids k && is_lost now s k then none else Dict.lookup k s.users)
unfolding drop_all contains
drop_all-users now k [] s w = refl
drop_all-users now k (id ∷ ids) s w = ground (
  arith,
  drop_all-users now k ids (drop_stranded id now s) (drop_stranded-IsWellFormed id now s w),
  drop_stranded-users now k id s w,
  drop_stranded_other now k id s,
  drop_stranded_kept now id s,
)

-- An expired invite of the account.
abbrev pub expired_invite : ℕ → ℕ → GoString → Token → Bool
expired_invite now k _ t =
    not (ltb now t.expires_at) && (t.purpose == purpose_invite && k == t.user_id)

contains-stranded :
    (now k : ℕ) (tokens : Dict GoString Token)
    → contains (stranded now tokens) k ≡ Dict.any (expired_invite now k) tokens
unfolding stranded contains Dict.any
contains-stranded now k [] = refl
contains-stranded now k ((_, t) ∷ tokens) = ground (arith, contains-stranded now k tokens)

-- The account is unconfirmed, has an expired invite, and has no live one.
abbrev pub is_stranded : ℕ → Store → ℕ → Bool
is_stranded now s k = Dict.any (expired_invite now k) s.tokens && is_lost now s k

live_invite_kept :
    (now k : ℕ) (s : Store)
    → holds_live_invite k now (drop_tokens (token_expired now) s) ≡ holds_live_invite k now s
unfolding holds_live_invite
live_invite_kept now k s =
    Dict.any-delete_func (live_for k purpose_invite now) (token_expired now) s.tokens
      (λ hash t live. ground arith)

-- In a well-formed store, a sweep of the tokens that answers a count removes the accounts that an
-- expired invite strands, and no other: those unconfirmed, with an expired invite and no live one.
-- Every other account stays as it was.
pub delete_expired_tokens-users :
    (now k n : ℕ) (s : Store)
    → IsWellFormed s
    → (delete_expired_tokens now s).0 ≡ ok n
    → Dict.lookup k (delete_expired_tokens now s).1.users
      ≡ (if is_stranded now s k then none else Dict.lookup k s.users)
delete_expired_tokens-users now k n s w done = elim (delete_expired_tokens_cases now s) [
  | inl (failed, _) ↦ absurd (ground arith)
  | inr e ↦ rw e (
      ground (
        arith,
        drop_all-users now k (stranded now s.tokens) (drop_tokens (token_expired now) s)
            (drop_tokens-IsWellFormed (token_expired now) s w),
        contains-stranded now k s.tokens,
        live_invite_kept now k s,
      ))
]

drop_stranded-tokens :
    (now id : ℕ) (hash : GoString) (s : Store)
    → IsWellFormed s
    → Dict.lookup hash (drop_stranded id now s).tokens ≡ (
        if is_lost now s id
        then Dict.unless (token_of id) hash (Dict.lookup hash s.tokens)
        else Dict.lookup hash s.tokens)
unfolding drop_stranded
drop_stranded-tokens now id hash s w =
    ground (arith, Dict.lookup-delete_func hash (token_of id) s.tokens w.tokens_keyed.nodup)

-- A token goes with its account, if that account is dropped.
abbrev goes_with : List ℕ → ℕ → Store → GoString → Token → Bool
goes_with ids now s _ t = contains ids t.user_id && is_lost now s t.user_id

drop_all-tokens :
    (now : ℕ) (hash : GoString) (ids : List ℕ) (s : Store)
    → IsWellFormed s
    → Dict.lookup hash (drop_all ids now s).tokens
      ≡ Dict.unless (goes_with ids now s) hash (Dict.lookup hash s.tokens)
unfolding drop_all contains
drop_all-tokens now hash [] s w = ground arith
drop_all-tokens now hash (id ∷ ids) s w = elim (Option-cases (Dict.lookup hash s.tokens)) [
  | inl e ↦ ground (
    arith,
    drop_all-tokens now hash ids (drop_stranded id now s) (drop_stranded-IsWellFormed id now s w),
    drop_stranded-tokens now id hash s w,
  )
  | inr (t, e) ↦ ground (
    arith,
    drop_all-tokens now hash ids (drop_stranded id now s) (drop_stranded-IsWellFormed id now s w),
    drop_stranded-tokens now id hash s w,
    drop_stranded-users now t.user_id id s w,
    drop_stranded_other now t.user_id id s,
    drop_stranded_kept now id s,
  )
]

-- In a well-formed store, a sweep of the tokens that answers a count leaves of the tokens exactly
-- those that expire after the instant and whose account it does not remove. The count is that of the
-- expired tokens.
pub delete_expired_tokens-tokens :
    (now n : ℕ) (hash : GoString) (s : Store)
    → IsWellFormed s
    → (delete_expired_tokens now s).0 ≡ ok n
    → (n ≡ Dict.count (token_expired now) s.tokens)
      × (Dict.lookup hash (delete_expired_tokens now s).1.tokens
          ≡ Dict.unless
              (λ _ t. not (ltb now t.expires_at) || is_stranded now s t.user_id)
              hash
              (Dict.lookup hash s.tokens))
delete_expired_tokens-tokens now n hash s w done = elim (delete_expired_tokens_cases now s) [
  | inl (failed, _) ↦ absurd (ground arith)
  | inr e ↦ (
    ground arith,
    rw e (elim (Option-cases (Dict.lookup hash s.tokens)) [
      | inl missing ↦ ground (
        arith,
        drop_all-tokens now hash (stranded now s.tokens) (drop_tokens (token_expired now) s)
            (drop_tokens-IsWellFormed (token_expired now) s w),
        Dict.lookup-delete_func hash (token_expired now) s.tokens w.tokens_keyed.nodup,
      )
      | inr (t, found) ↦ ground (
        arith,
        drop_all-tokens now hash (stranded now s.tokens) (drop_tokens (token_expired now) s)
            (drop_tokens-IsWellFormed (token_expired now) s w),
        Dict.lookup-delete_func hash (token_expired now) s.tokens w.tokens_keyed.nodup,
        contains-stranded now t.user_id s.tokens,
        live_invite_kept now t.user_id s,
      )
    ]),
  )
]

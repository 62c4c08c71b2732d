-- ===== src/Authkit/SecretFree.antt =====
-- The steps by which no flow lets the store of testkit keep the secret of a token.
use gouncer.Base.{
  ℕ, ◌≡◌, refl, ◌⊎◌, inl, inr, Option-cases, Bool, some, [], GoString, arith, ◌==◌, string_eq,
}
use gouncer.Base.Dict
use gouncer.Base.Int.{ℤ}
use gouncer.Core.Errors.{Error, user_not_found}
use gouncer.Core.Results.{M, ok, err, Result-cases}
use gouncer.Core.Platform.{Platform, Env}
use gouncer.Core.Types.{User, Token, purpose_reset}
use gouncer.Core.Tokens.{new_token}
use gouncer.Authkit.Instance.{invite_store}
use gouncer.Authkit.Invites.{Invites, issue}
use gouncer.Testkit.State.{Store}
use gouncer.Testkit.Accounts.{has_email, create_user, user_by_email}
use gouncer.Testkit.Tokens.{
  put_token, drop_tokens, token_for, create_token, replace_token, activate_by_token, reset_by_token,
}
use gouncer.Testkit.Cases.{
  create_user_cases, create_token_cases, replace_token_cases, activate_by_token_cases,
  reset_by_token_cases,
}

-- No token of the store carries its secret, and tokens are kept under distinct hashes.
pub record IsSecretFree (s : Store) : Type 0 where
  pub nodup : Dict.NodupKeys s.tokens
  pub secretless : (hash : GoString) (t : Token) → Dict.lookup hash s.tokens ≡ some t → t.token ≡ []

tokens-IsSecretFree : (s t : Store) → t.tokens ≡ s.tokens → IsSecretFree s → IsSecretFree t
tokens-IsSecretFree s t same free = record {
  nodup = rw same free.nodup;
  secretless = λ hash x found. free.secretless hash x (rw same at found);
}

put_token-IsSecretFree :
    (t : Token) (s : Store) → t.token ≡ [] → IsSecretFree s → IsSecretFree (put_token t s)
put_token-IsSecretFree t s bare free = record {
  nodup = Dict.insert-NodupKeys t.token_hash t s.tokens free.nodup;
  secretless = λ hash x found.
      ground (arith, Dict.lookup-insert hash t.token_hash t s.tokens, free.secretless hash x);
}

drop_tokens-IsSecretFree :
    (p : GoString → Token → Bool) (s : Store) → IsSecretFree s → IsSecretFree (drop_tokens p s)
drop_tokens-IsSecretFree p s free = record {
  nodup = Dict.delete_func-NodupKeys p s.tokens free.nodup;
  secretless = λ hash x found.
      free.secretless hash x (Dict.delete_func-Shrinks p s.tokens free.nodup hash x found);
}

-- A write that keeps the store free of secrets when it is handed a token without one.
abbrev pub KeepsFree : (Token → M Store (Unit {0})) → Type 0
KeepsFree write =
    (t : Token) (s : Store) → t.token ≡ [] → IsSecretFree s → IsSecretFree (write t s).1

pub create_token-KeepsFree : (now live : ℕ) → KeepsFree (λ t. create_token now t live)
create_token-KeepsFree now live t s bare free = elim (create_token_cases now t live s) [
  | inl (_, same) ↦ rw same free
  | inr (_, _, _, _, e) ↦ rw e (put_token-IsSecretFree t s bare free)
]

pub replace_token-KeepsFree : KeepsFree replace_token
replace_token-KeepsFree t s bare free = elim (replace_token_cases t s) [
  | inl (_, same) ↦ rw same free
  | inr (_, _, _, e) ↦ rw e (
      put_token-IsSecretFree t (drop_tokens (token_for t.user_id t.purpose) s) bare
        (drop_tokens-IsSecretFree _ s free))
]

pub user_by_email_cases :
    (email : GoString) (s : Store)
    → ((e : Error) × (user_by_email email s ≡ (err e, s)))
      ⊎ ((u : User) × (user_by_email email s ≡ (ok u, s)))
unfolding user_by_email
user_by_email_cases email s = elim (Option-cases s.faults.lookup_err) [
  | inr (e, failed) ↦ inl (e, ground arith)
  | inl quiet ↦ elim (Option-cases (Dict.find (has_email email) s.users)) [
    | inl missed ↦ inl (user_not_found, ground arith)
    | inr (u, found) ↦ inr (u, ground arith)
  ]
]

pub issue-IsSecretFree :
    (platform : Platform) (i : Invites) (env : Env) (id : ℕ) (purpose : GoString) (ttl : ℤ)
    (write : Token → M Store (Unit {0})) (s : Store)
    → KeepsFree write
    → IsSecretFree s
    → IsSecretFree (issue platform (invite_store env) i env id purpose ttl write s).1
unfolding issue
issue-IsSecretFree platform i env id purpose ttl write s keeps free =
    elim (Result-cases (new_token platform env id purpose ttl)) [
      | inl (e, failed) ↦ rw failed free
      | inr (t, issued) ↦ elim (Result-cases (write (record t { token = [] }) s).0) [
        | inl (e, failed) ↦ rw issued (rw failed (keeps (record t { token = [] }) s refl free))
        | inr (_, wrote) ↦ rw issued (rw wrote (keeps (record t { token = [] }) s refl free))
      ]
    ]

pub create_user-IsSecretFree :
    (u : User) (s : Store) → IsSecretFree s → IsSecretFree (create_user u s).1
create_user-IsSecretFree u s free = elim (create_user_cases u s) [
  | inl (_, same) ↦ rw same free
  | inr (_, e) ↦ rw e (tokens-IsSecretFree s _ refl free)
]

pub activate_by_token-IsSecretFree :
    (hash : GoString) (now : ℕ) (password_hash : GoString) (s : Store)
    → IsSecretFree s
    → IsSecretFree (activate_by_token hash now password_hash s).1
unfolding Dict.delete
activate_by_token-IsSecretFree hash now password_hash s free =
    elim (activate_by_token_cases hash now password_hash s) [
      | inl (_, same) ↦ rw same free
      | inr (_, _, _, _, _, _, _, _, e) ↦ rw e (
          tokens-IsSecretFree (drop_tokens (λ j _. hash == j) s) _ refl
            (drop_tokens-IsSecretFree (λ j _. hash == j) s free))
    ]

pub reset_by_token-IsSecretFree :
    (hash : GoString) (now : ℕ) (password_hash : GoString) (s : Store)
    → IsSecretFree s
    → IsSecretFree (reset_by_token hash now password_hash s).1
unfolding Dict.delete
reset_by_token-IsSecretFree hash now password_hash s free =
    elim (reset_by_token_cases hash now password_hash s) [
      | inl (_, same) ↦ rw same free
      | inr (x, _, _, _, _, _, _, _, e) ↦
          let unspent : Store = drop_tokens (token_for x.user_id purpose_reset) s in
          rw e (
            tokens-IsSecretFree (drop_tokens (λ j _. hash == j) unspent) _ refl (
              drop_tokens-IsSecretFree (λ j _. hash == j) unspent
                (drop_tokens-IsSecretFree (token_for x.user_id purpose_reset) s free)))
    ]

-- ===== src/Testkit/Access.antt =====
-- What closes an account's way in: a disabling, an expiry, a spent token.
use gouncer.Base.{
  ℕ, ◌≤◌, ◌<◌, ◌≡◌, refl, ◌↔◌, ◌≢◌, Bool, true, false, none, some, GoString, arith, nat_eq,
  string_eq, inl, inr, ◌==◌, if◌then◌else◌,
}
use gouncer.Base.Dict
use gouncer.Core.Errors.{token_not_found}
use gouncer.Core.Results.{Result, ok, err, is_ok}
use gouncer.Core.Roles.{Roles}
use gouncer.Core.Types.{User, Session, Token, purpose_invite, purpose_reset}
use gouncer.Testkit.State.{Store}
use gouncer.Testkit.Sessions.{user_by_session}
use gouncer.Testkit.Guard.{
  session_of, token_of, revoke, set_disabled, set_user_disabled, set_user_disabled_under_cover,
  set_user_disabled_from, disable_under_cover, any_role, still_holds,
}
use gouncer.Testkit.Tokens.{
  token_for, live_for, usable, activated, create_token, replace_token, activate_by_token,
  reset_by_token,
}
use gouncer.Testkit.Cases.{
  set_disabled_cases, disable_under_cover_cases, create_token_cases, replace_token_cases,
  activate_by_token_cases, reset_by_token_cases,
}
use gouncer.Testkit.WellFormed.{IsWellFormed}

-- No session and no token of the account is left.
pub record HoldsNothing (id : ℕ) (s : Store) : Type 0 where
  pub no_session :
      (hash : GoString) (x : Session) → Dict.lookup hash s.sessions ≡ some x → x.user_id ≢ id
  pub no_token : (hash : GoString) (t : Token) → Dict.lookup hash s.tokens ≡ some t → t.user_id ≢ id

revoke-HoldsNothing :
    (id : ℕ) (s t : Store)
    → IsWellFormed s
    → t.sessions ≡ s.sessions
    → t.tokens ≡ s.tokens
    → HoldsNothing id (revoke id true t)
revoke-HoldsNothing id s t w same_sessions same_tokens = record {
  no_session = λ hash x found e.
      ground
        (arith, Dict.delete_func-fails (session_of id) s.sessions hash x w.sessions_keyed.nodup);
  no_token = λ hash x found e.
      ground (arith, Dict.delete_func-fails (token_of id) s.tokens hash x w.tokens_keyed.nodup);
}

set_disabled-HoldsNothing :
    (id : ℕ) (s : Store)
    → IsWellFormed s
    → is_ok (set_disabled id true s).0 ≡ true
    → HoldsNothing id (set_disabled id true s).1
set_disabled-HoldsNothing id s w done = elim (set_disabled_cases id true s) [
  | inl (failed, _) ↦ absurd (ground arith)
  | inr (u, _, e) ↦ rw e (revoke-HoldsNothing id s _ w refl refl)
]

disable_under_cover-HoldsNothing :
    (id : ℕ) (privileged : Roles) (accepts : User → Result (Unit {0})) (s : Store)
    → IsWellFormed s
    → is_ok (disable_under_cover id true privileged accepts s).0 ≡ true
    → HoldsNothing id (disable_under_cover id true privileged accepts s).1
disable_under_cover-HoldsNothing id privileged accepts s w done =
    elim (disable_under_cover_cases id true privileged accepts s) [
      | inl (failed, _) ↦ absurd (ground arith)
      | inr (u, _, _, _, e) ↦ rw e (revoke-HoldsNothing id s _ w refl refl)
    ]

-- In a well-formed store, each of the three writes that disable an account, once it succeeds, leaves
-- the account no session and no token of any purpose.
pub disable-HoldsNothing :
    (id : ℕ) (held : GoString) (privileged : Roles) (s : Store)
    → IsWellFormed s
    → (is_ok (set_user_disabled id true s).0 ≡ true
        → HoldsNothing id (set_user_disabled id true s).1)
      × (is_ok (set_user_disabled_under_cover id true privileged s).0 ≡ true
          → HoldsNothing id (set_user_disabled_under_cover id true privileged s).1)
      × (is_ok (set_user_disabled_from id held true privileged s).0 ≡ true
          → HoldsNothing id (set_user_disabled_from id held true privileged s).1)
unfolding set_user_disabled set_user_disabled_under_cover set_user_disabled_from
disable-HoldsNothing id held privileged s w = (
  set_disabled-HoldsNothing id s w,
  disable_under_cover-HoldsNothing id privileged any_role s w,
  disable_under_cover-HoldsNothing id privileged (still_holds held) s w,
)

-- A session hash answers an account exactly when a session stands under it that expires after the
-- instant and names that account, which is enabled. No error is forced.
pub user_by_session_iff :
    (hash : GoString) (now : ℕ) (u : User) (s : Store)
    → s.faults.session_err ≡ none
    → ((user_by_session hash now s).0 ≡ ok u) ↔ (
        (x : Session) × (Dict.lookup hash s.sessions ≡ some x)
        × (now < x.expires_at)
        × (Dict.lookup x.user_id s.users ≡ some u)
        × (u.disabled ≡ false))
unfolding user_by_session
user_by_session_iff hash now u s clear = (λ h. ground arith, λ (x, a, b, c, d). ground arith)

-- A redemption that succeeds: what the token was, what its account was open to, and what that account
-- becomes. Every other account stays as it was.
abbrev Redeems :
    (GoString → Token → Bool)
    → (User → Type 0)
    → GoString
    → ℕ
    → (User → User)
    → Store
    → Store
    → Type 0
Redeems for IsOpen hash id change s t =
    (x : Token) × (u : User) × (Dict.lookup hash s.tokens ≡ some x)
    × (for hash x ≡ true)
    × (x.user_id ≡ id)
    × (Dict.lookup id s.users ≡ some u)
    × IsOpen u
    × ((k : ℕ)
        → Dict.lookup k t.users ≡ (if k == id then some (change u) else Dict.lookup k s.users))

module _ (hash : GoString) (now : ℕ) (password_hash : GoString) (s : Store) (id : ℕ)
    (w : IsWellFormed s) where
  -- In a well-formed store, an activation that answers an id spent a live invite of that account,
  -- enabled and unconfirmed until then, which now is confirmed and has the password hash, while
  -- every other account, every session and every other token stays; and the same hash activates
  -- nothing again, at any instant.
  pub activate_by_token-ok :
      (activate_by_token hash now password_hash s).0 ≡ ok id
      → let t : Store = (activate_by_token hash now password_hash s).1 in
        Redeems
          (λ _ x. usable purpose_invite now x)
          (λ u. (u.disabled ≡ false) × (u.confirmed ≡ false))
          hash
          id
          (activated password_hash)
          s
          t
        × (t.sessions ≡ s.sessions)
        × ((j : GoString)
            → Dict.lookup j t.tokens ≡ (if j == hash then none else Dict.lookup j s.tokens))
        × ((later : ℕ) (other : GoString)
            → (activate_by_token hash later other t).0 ≡ err token_not_found)
  activate_by_token-ok done = elim (activate_by_token_cases hash now password_hash s) [
    | inl (failed, _) ↦ absurd (ground arith)
    | inr (x, u, clear, calm, found, live, held, open_to, e) ↦ rw e (
      (
        x,
        u,
        found,
        live,
        ground arith,
        ground arith,
        (ground arith, ground arith),
        λ k. ground (arith, Dict.lookup-insert k x.user_id (activated password_hash u) s.users),
      ),
      refl,
      λ j. Dict.lookup-delete j hash s.tokens w.tokens_keyed.nodup,
      λ later other.
          unfold activate_by_token in
          ground (arith, Dict.lookup-delete hash hash s.tokens w.tokens_keyed.nodup),
    )
  ]

  -- In a well-formed store, a reset that answers an id spent a live reset token of that account,
  -- enabled, which now has the password hash, while every other account stays; the account has no
  -- session and no reset token left, every other session and token stays, and the same hash resets
  -- nothing again, at any instant.
  pub reset_by_token-ok :
      (reset_by_token hash now password_hash s).0 ≡ ok id
      → let t : Store = (reset_by_token hash now password_hash s).1 in
        Redeems
          (λ _ x. usable purpose_reset now x)
          (λ u. u.disabled ≡ false)
          hash
          id
          (λ u. record u { password_hash = password_hash })
          s
          t
        × ((j : GoString)
            → Dict.lookup j t.sessions ≡ Dict.unless (session_of id) j (Dict.lookup j s.sessions))
        × ((j : GoString)
            → Dict.lookup j t.tokens
              ≡ Dict.unless (token_for id purpose_reset) j (Dict.lookup j s.tokens))
        × ((later : ℕ) (other : GoString)
            → (reset_by_token hash later other t).0 ≡ err token_not_found)
  reset_by_token-ok done = elim (reset_by_token_cases hash now password_hash s) [
    | inl (failed, _) ↦ absurd (ground arith)
    | inr (x, u, clear, calm, found, live, held, open_to, e) ↦
        let own : id ≡ x.user_id = ground arith in
        let p : GoString → Token → Bool = token_for x.user_id purpose_reset in
        let kept = Dict.delete_func-NodupKeys p s.tokens w.tokens_keyed.nodup in
        rw e (
          (
            x,
            u,
            found,
            live,
            ground arith,
            ground arith,
            ground arith,
            λ k. ground (
              arith,
              Dict.lookup-insert k x.user_id (record u { password_hash = password_hash }) s.users,
            ),
          ),
          λ j.
              rw own (
                Dict.lookup-delete_func j (session_of x.user_id) s.sessions w.sessions_keyed.nodup),
          λ j. ground (
            arith,
            Dict.lookup-delete j hash (Dict.delete_func p s.tokens) kept,
            Dict.lookup-delete_func j p s.tokens w.tokens_keyed.nodup,
          ),
          λ later other.
              unfold reset_by_token in
              ground (arith, Dict.lookup-delete hash hash (Dict.delete_func p s.tokens) kept),
        )
  ]

-- A token that is stored brings its account, which is enabled, to at most the cap of live tokens for
-- the purpose. It stands under its hash.
pub create_token-ok :
    (now : ℕ) (t : Token) (live : ℕ) (s : Store)
    → is_ok (create_token now t live s).0 ≡ true
    → let after : Store = (create_token now t live s).1 in
      (Dict.count (live_for t.user_id t.purpose now) after.tokens ≤ live)
      × (Dict.lookup t.token_hash after.tokens ≡ some t)
      × ((u : User) × (Dict.lookup t.user_id after.users ≡ some u) × (u.disabled ≡ false))
create_token-ok now t live s done = elim (create_token_cases now t live s) [
  | inl (failed, _) ↦ absurd (ground arith)
  | inr (u, held, enabled, below, e) ↦ rw e (
    ground (arith, Dict.count-insert-le (live_for t.user_id t.purpose now) t.token_hash t s.tokens),
    ground (arith, Dict.lookup-insert t.token_hash t.token_hash t s.tokens),
    (u, held, enabled),
  )
]

-- In a well-formed store, a token that replaces others stands under its hash afterwards, and of the
-- tokens before exactly those of another account or another purpose stay beside it, so that it is the
-- one token of its account and purpose. Its account exists, is enabled and, for an invite, is
-- unconfirmed.
pub replace_token-ok :
    (t : Token) (s : Store)
    → IsWellFormed s
    → is_ok (replace_token t s).0 ≡ true
    → let after : Store = (replace_token t s).1 in
      ((hash : GoString)
        → Dict.lookup hash after.tokens ≡ (
            if hash == t.token_hash
            then some t
            else Dict.unless (token_for t.user_id t.purpose) hash (Dict.lookup hash s.tokens)))
      × ((hash : GoString) (x : Token)
          → Dict.lookup hash after.tokens ≡ some x
          → token_for t.user_id t.purpose hash x ≡ true
          → x ≡ t)
      × ((u : User) × (Dict.lookup t.user_id after.users ≡ some u)
          × (u.disabled ≡ false)
          × (t.purpose ≡ purpose_invite → u.confirmed ≡ false))
replace_token-ok t s w done = elim (replace_token_cases t s) [
  | inl (failed, _) ↦ absurd (ground arith)
  | inr (u, held, open_to, e) ↦
      let p : GoString → Token → Bool = token_for t.user_id t.purpose in
      rw e (
        λ hash. ground (
          arith,
          Dict.lookup-insert hash t.token_hash t (Dict.delete_func p s.tokens),
          Dict.lookup-delete_func hash p s.tokens w.tokens_keyed.nodup,
        ),
        λ hash x found mine. ground (
          arith,
          Dict.lookup-insert hash t.token_hash t (Dict.delete_func p s.tokens),
          Dict.delete_func-fails p s.tokens hash x w.tokens_keyed.nodup,
        ),
        (u, held, ground arith, λ invites. ground arith),
      )
]

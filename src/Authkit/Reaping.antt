-- ===== src/Authkit/Reaping.antt =====
-- What a sweep of the store of testkit leaves.
use gouncer.Base.{
  ℕ, ◌<◌, ◌≡◌, refl, inl, inr, true, some, GoString, arith, Bool-cases, Option-cases, List, [], ◌∷◌,
  string_eq, nat_eq, ◌||◌,
}
use gouncer.Base.Dict
use gouncer.Core.Errors.{Error, is, sweep_tokens}
use gouncer.Core.Results.{ok, err, Result-cases}
use gouncer.Core.Types.{Session, Token}
use gouncer.Authkit.Reaper.{SessionReaper, Swept, sweep, after_sessions, sweep_tokens_half}
use gouncer.Testkit.State.{Store}
use gouncer.Testkit.Sessions.{session_expired, delete_expired_sessions}
use gouncer.Testkit.Sweep.{
  token_expired, holds_live_invite, drop_stranded, drop_all, stranded, delete_expired_tokens,
}
use gouncer.Testkit.Guard.{session_of}
use gouncer.Testkit.Tokens.{drop_tokens}
use gouncer.Testkit.Cases.{delete_expired_tokens_cases}
use gouncer.Testkit.WellFormed.{IsWellFormed, drop_sessions-IsWellFormed, drop_tokens-IsWellFormed}
use gouncer.Testkit.Sweeping.{delete_expired_tokens-tokens}
use gouncer.Testkit.Invariant.{drop_stranded-IsWellFormed}

abbrev pub reaper : SessionReaper Store
reaper = record {
  delete_expired_sessions = delete_expired_sessions;
  delete_expired_tokens = some delete_expired_tokens;
}

-- The store between the two halves.
abbrev between : ℕ → Store → Store
between now s = record s { sessions = Dict.delete_func (session_expired now) s.sessions }

-- Every session that is left of a store was one of it.
abbrev SessionsShrink : Store → Store → Type 0
SessionsShrink t s =
    (hash : GoString) (x : Session)
    → Dict.lookup hash t.sessions ≡ some x
    → Dict.lookup hash s.sessions ≡ some x

drop_stranded-SessionsShrink :
    (id now : ℕ) (s : Store) → IsWellFormed s → SessionsShrink (drop_stranded id now s) s
unfolding drop_stranded
drop_stranded-SessionsShrink id now s w hash x found =
    elim (Option-cases (Dict.lookup id s.users)) [
      | inl missing ↦ ground arith
      | inr (u, held) ↦ elim (Bool-cases (u.confirmed || holds_live_invite id now s)) [
        | inl kept ↦ ground arith
        | inr dropped ↦
            Dict.delete_func-Shrinks (session_of id) s.sessions w.sessions_keyed.nodup hash x
              (ground arith)
      ]
    ]

drop_all-SessionsShrink :
    (ids : List ℕ) (now : ℕ) (s : Store) → IsWellFormed s → SessionsShrink (drop_all ids now s) s
unfolding drop_all
drop_all-SessionsShrink [] now s w hash x found = found
drop_all-SessionsShrink (id ∷ ids) now s w hash x found =
    drop_stranded-SessionsShrink id now s w hash x (
      drop_all-SessionsShrink ids now (drop_stranded id now s)
        (drop_stranded-IsWellFormed id now s w) hash x found)

-- In a well-formed store, after a sweep that does not fail every session and every token that is left
-- expires after the instant of the sweep, and the sweep answers how many tokens had expired. A sweep
-- that fails answers the error of its token half.
pub sweep-unexpired :
    (now : ℕ) (s : Store)
    → IsWellFormed s
    → let answer : Swept = (sweep reaper now s).0 in
      let t : Store = (sweep reaper now s).1 in
      (answer.failed ≡ ok tt
        → ((hash : GoString) (x : Session)
            → Dict.lookup hash t.sessions ≡ some x
            → now < x.expires_at)
          × ((hash : GoString) (x : Token)
              → Dict.lookup hash t.tokens ≡ some x
              → now < x.expires_at)
          × (answer.tokens ≡ Dict.count (token_expired now) s.tokens))
      × ((e : Error) → answer.failed ≡ err e → is e sweep_tokens ≡ true)
unfolding is sweep after_sessions sweep_tokens_half delete_expired_sessions
sweep-unexpired now s w =
    let mid = between now s in
    let wm : IsWellFormed mid = drop_sessions-IsWellFormed (session_expired now) s w in
    elim (delete_expired_tokens_cases now mid) [
      | inl (refused, same) ↦ elim (Result-cases (delete_expired_tokens now mid).0) [
        | inr (n, swept) ↦ absurd (ground arith)
        | inl (e, failed) ↦ (λ fine. absurd (ground arith), λ f answered. ground arith)
      ]
      | inr done ↦
          let expired = Dict.count (token_expired now) mid.tokens in
          let after : Store =
            drop_all (stranded now mid.tokens) now (drop_tokens (token_expired now) mid) in
          let left : (delete_expired_tokens now mid).1 ≡ after = rw done refl in
          let shrinks =
            drop_all-SessionsShrink (stranded now mid.tokens) now
              (drop_tokens (token_expired now) mid)
              (drop_tokens-IsWellFormed (token_expired now) mid wm) in
          let unexpired : (hash : GoString) (x : Token)
              → Dict.lookup hash after.tokens ≡ some x
              → now < x.expires_at =
            λ hash x found.
              ground (arith, delete_expired_tokens-tokens now expired hash mid wm (rw done refl)) in
          (
            rw done (λ fine. (
              λ hash x found. ground (
                arith,
                shrinks hash x,
                Dict.lookup-delete_func hash (session_expired now) s.sessions
                    w.sessions_keyed.nodup,
              ),
              λ hash x found. unexpired hash x found,
              refl,
            )),
            rw done (λ e failed. absurd (ground arith)),
          )
    ]

-- ===== src/Testkit/Sweep.antt =====
-- `DeleteExpiredTokens`, and the unconfirmed accounts that an expired invite strands.
use gouncer.Base.{
  ℕ, ◌==◌, Bool, not, ◌||◌, none, some, List, [], ◌∷◌, GoString, nat_eq, string_eq, ltb,
  if◌then◌else◌,
}
use gouncer.Base.Dict
use gouncer.Base.Dict.{Dict}
use gouncer.Core.Results.{M, ◌>>=◌, ◌>>◌, pure, forced}
use gouncer.Core.Types.{Token, purpose_invite}
use gouncer.Testkit.State.{Store, update, fields}
use gouncer.Testkit.Guard.{session_of, token_of}
use gouncer.Testkit.Tokens.{live_for}

abbrev pub token_expired : ℕ → GoString → Token → Bool
token_expired now _ t = not (ltb now t.expires_at)

-- `holdsLiveInvite`
unfoldable pub holds_live_invite : ℕ → ℕ → Store → Bool
holds_live_invite id now s = Dict.any (live_for id purpose_invite now) s.tokens

abbrev pub remove_account : ℕ → Store → Store
remove_account id s = record s {
  users = Dict.delete id s.users;
  sessions = Dict.delete_func (session_of id) s.sessions;
  tokens = Dict.delete_func (token_of id) s.tokens;
}

-- `dropStranded`
unfoldable pub drop_stranded : ℕ → ℕ → Store → Store
unfolding holds_live_invite
drop_stranded id now s = elim (Dict.lookup id s.users) [
  | none ↦ s
  | some u ↦ if u.confirmed || holds_live_invite id now s then s else remove_account id s
]

-- The accounts of the expired invites, in the order of the loop. The source collects them in a
-- set; dropping an account twice drops it once.
unfoldable pub stranded : ℕ → Dict GoString Token → List ℕ
stranded now [] = []
stranded now ((_, t) ∷ tokens) =
    let rest = stranded now tokens in
    if ltb now t.expires_at
    then rest
    else if t.purpose == purpose_invite
    then t.user_id ∷ rest
    else rest

unfoldable pub drop_all : List ℕ → ℕ → Store → Store
unfolding drop_stranded
drop_all [] now s = s
drop_all (id ∷ ids) now s = drop_all ids now (drop_stranded id now s)

-- `DeleteExpiredTokens`
unfoldable pub delete_expired_tokens : ℕ → M Store ℕ
unfolding stranded drop_all
delete_expired_tokens now = do
  s ← fields
  forced s.faults.token_err
  update (λ t. record t { tokens = Dict.delete_func (token_expired now) t.tokens })
  update (drop_all (stranded now s.tokens) now)
  pure (Dict.count (token_expired now) s.tokens)

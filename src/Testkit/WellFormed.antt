-- ===== src/Testkit/WellFormed.antt =====
-- The invariant of the store: each entry stands under its own key, once, and no two accounts hold
-- one email.
use gouncer.Base.{
  ℕ, ◌≡◌, refl, ◌∙◌, Bool, true, false, some, GoString, arith, nat_eq, string_eq, ◌==◌, Eq,
}
use gouncer.Base.Dict
use gouncer.Core.Roles.{Roles}
use gouncer.Core.Types.{User, Session, Token}
use gouncer.Testkit.State.{Store}
use gouncer.Testkit.Accounts.{put_user}
use gouncer.Testkit.Guard.{session_of, token_of, revoke}
use gouncer.Testkit.Tokens.{put_token, drop_tokens, drop_sessions, spend}
use gouncer.Testkit.Sweep.{remove_account}

-- Each entry stands under its own key, once.
pub record IsKeyed {ℓ κ} {K : Type ℓ} {V : Type κ} ⦃e : Eq K⦄ (key : V → K) (d : Dict.Dict K V)
    : Type (ℓ ⊔ κ) where
  pub nodup : Dict.NodupKeys d
  pub keyed : (k : K) (v : V) → Dict.lookup k d ≡ some v → key v ≡ k

pub record IsWellFormed (s : Store) : Type 0 where
  pub users_keyed : IsKeyed (λ (u : User). u.id) s.users
  pub sessions_keyed : IsKeyed (λ (x : Session). x.token_hash) s.sessions
  pub tokens_keyed : IsKeyed (λ (t : Token). t.token_hash) s.tokens
  pub emails_distinct :
      (j k : ℕ) (u v : User)
      → Dict.lookup j s.users ≡ some u
      → Dict.lookup k s.users ≡ some v
      → u.email ≡ v.email
      → j ≡ k

module _ {ℓ κ} {K : Type ℓ} {V : Type κ} ⦃e : Eq K⦄ (key : V → K) where
  pub insert-IsKeyed :
      (k : K) (v : V) (d : Dict.Dict K V)
      → key v ≡ k
      → IsKeyed key d
      → IsKeyed key (Dict.insert k v d)
  insert-IsKeyed k v d own w = record {
    nodup = Dict.insert-NodupKeys k v d w.nodup;
    keyed = λ j u found. ground (arith, Dict.lookup-insert j k v d, w.keyed j u);
  }

  pub delete_func-IsKeyed :
      (p : K → V → Bool) (d : Dict.Dict K V) → IsKeyed key d → IsKeyed key (Dict.delete_func p d)
  delete_func-IsKeyed p d w = record {
    nodup = Dict.delete_func-NodupKeys p d w.nodup;
    keyed = λ j u found. w.keyed j u (Dict.delete_func-Shrinks p d w.nodup j u found);
  }

  pub delete-IsKeyed : (k : K) (d : Dict.Dict K V) → IsKeyed key d → IsKeyed key (Dict.delete k d)
  unfolding Dict.delete
  delete-IsKeyed k d w = delete_func-IsKeyed (λ j _. k == j) d w

-- A written account keeps the invariant, if no other one holds its email.
pub put_user-IsWellFormed :
    (id : ℕ) (u : User) (s : Store)
    → u.id ≡ id
    → ((k : ℕ) (v : User) → Dict.lookup k s.users ≡ some v → v.email ≡ u.email → k ≡ id)
    → IsWellFormed s
    → IsWellFormed (put_user id u s)
put_user-IsWellFormed id u s own fresh w = record {
  users_keyed = insert-IsKeyed _ id u s.users own w.users_keyed;
  sessions_keyed = w.sessions_keyed;
  tokens_keyed = w.tokens_keyed;
  emails_distinct = λ j k x y fx fy same. ground (
    arith,
    Dict.lookup-insert j id u s.users,
    Dict.lookup-insert k id u s.users,
    fresh j x,
    fresh k y,
    w.emails_distinct j k x y,
  );
}

pub sessions-IsWellFormed :
    (d : Dict.Dict GoString Session) (s : Store)
    → IsKeyed (λ (x : Session). x.token_hash) d
    → IsWellFormed s
    → IsWellFormed (record s { sessions = d })
sessions-IsWellFormed d s k w = record {
  users_keyed = w.users_keyed;
  sessions_keyed = k;
  tokens_keyed = w.tokens_keyed;
  emails_distinct = w.emails_distinct;
}

pub tokens-IsWellFormed :
    (d : Dict.Dict GoString Token) (s : Store)
    → IsKeyed (λ (t : Token). t.token_hash) d
    → IsWellFormed s
    → IsWellFormed (record s { tokens = d })
tokens-IsWellFormed d s k w = record {
  users_keyed = w.users_keyed;
  sessions_keyed = w.sessions_keyed;
  tokens_keyed = k;
  emails_distinct = w.emails_distinct;
}

-- An account written over itself, with its id and its email.
pub rewrite-IsWellFormed :
    (id : ℕ) (u v : User) (s : Store)
    → Dict.lookup id s.users ≡ some u
    → v.id ≡ u.id
    → v.email ≡ u.email
    → IsWellFormed s
    → IsWellFormed (put_user id v s)
rewrite-IsWellFormed id u v s found same_id same_email w =
    put_user-IsWellFormed id v s (same_id ∙ w.users_keyed.keyed id u found)
      (λ k x fx e. w.emails_distinct k id x u fx found (e ∙ same_email)) w

pub drop_sessions-IsWellFormed :
    (p : GoString → Session → Bool) (s : Store) → IsWellFormed s → IsWellFormed (drop_sessions p s)
drop_sessions-IsWellFormed p s w =
    sessions-IsWellFormed _ s (delete_func-IsKeyed _ p s.sessions w.sessions_keyed) w

pub drop_tokens-IsWellFormed :
    (p : GoString → Token → Bool) (s : Store) → IsWellFormed s → IsWellFormed (drop_tokens p s)
drop_tokens-IsWellFormed p s w =
    tokens-IsWellFormed _ s (delete_func-IsKeyed _ p s.tokens w.tokens_keyed) w

pub spend-IsWellFormed :
    (hash : GoString) (s : Store) → IsWellFormed s → IsWellFormed (spend hash s)
spend-IsWellFormed hash s w =
    tokens-IsWellFormed _ s (delete-IsKeyed _ hash s.tokens w.tokens_keyed) w

pub put_token-IsWellFormed : (t : Token) (s : Store) → IsWellFormed s → IsWellFormed (put_token t s)
put_token-IsWellFormed t s w =
    tokens-IsWellFormed _ s (insert-IsKeyed _ t.token_hash t s.tokens refl w.tokens_keyed) w

pub revoke-IsWellFormed :
    (id : ℕ) (disabled : Bool) (s : Store) → IsWellFormed s → IsWellFormed (revoke id disabled s)
revoke-IsWellFormed id false s w = w
revoke-IsWellFormed id true s w =
    drop_tokens-IsWellFormed (token_of id) _ (drop_sessions-IsWellFormed (session_of id) s w)

-- The counters that the guarded writes note leave the invariant alone.
pub noted-IsWellFormed :
    (given : Roles) (n : ℕ) (s : Store)
    → IsWellFormed s
    → IsWellFormed (record s { cover_given = given; disabled_under_cover = n })
noted-IsWellFormed given n s w = record {
  users_keyed = w.users_keyed;
  sessions_keyed = w.sessions_keyed;
  tokens_keyed = w.tokens_keyed;
  emails_distinct = w.emails_distinct;
}

-- The account that the sweep removes, with what it holds.
pub remove_account-IsWellFormed :
    (id : ℕ) (s : Store) → IsWellFormed s → IsWellFormed (remove_account id s)
unfolding Dict.delete
remove_account-IsWellFormed id s w =
    let v = revoke-IsWellFormed id true s w in
    let p : ℕ → User → Bool = λ j _. id == j in
    let kept = Dict.delete_func-Shrinks p s.users w.users_keyed.nodup in
    record {
      users_keyed = delete_func-IsKeyed _ p s.users w.users_keyed;
      sessions_keyed = v.sessions_keyed;
      tokens_keyed = v.tokens_keyed;
      emails_distinct =
          λ j k x y fx fy same. w.emails_distinct j k x y (kept j x fx) (kept k y fy) same;
    }

-- ===== src/Authkit/Onboarding.antt =====
-- From an invite to a login, over the store of testkit.
use gouncer.Base.{ℕ, ◌<◌, ◌≡◌, refl, sym, none, some, [], GoString, nat_eq, string_eq}
use gouncer.Base.Int.{add}
use gouncer.Core.Errors.{token_not_found}
use gouncer.Core.Results.{Result, ok, err}
use gouncer.Core.Platform.{Platform, Env}
use gouncer.Core.Types.{User, Token}
use gouncer.Core.Password.RoundTrip.{Writes, verify_password-hash_password}
use gouncer.Authkit.Instance.{auth_store, invite_store}
use gouncer.Authkit.Invites.{Invites, hash_of, invite, redeem_invite}
use gouncer.Authkit.Service.{Handlers, identity_of, authenticate}
use gouncer.Testkit.State.{Store}
use gouncer.Testkit.Tokens.{activated}
use gouncer.Testkit.Calls.{Call}
use gouncer.Testkit.WellFormed.{IsWellFormed}
use gouncer.Testkit.Invariant.{step-IsWellFormed}
use gouncer.Authkit.Activation.{
  hash_of-ok, invite-ok, new_invited_user-ok, authenticate-ok, stored, redeemed, redeem_invite-ok,
  redeemed-IsWellFormed, redeemed-lookup, redeem_invite_again,
}

-- An invite that answers a token can be redeemed and then logged in with. In a well-formed store,
-- in which no error is forced on tokens, activations and lookups, redeeming the secret before the
-- token ends, with a password that has a hash, answers the id of the invited account, and then the
-- email of the invite and the password log in as that account under the invited role, and
-- redeeming the secret again answers that there is no such token. The random source and argon2
-- write as many bytes as they are asked for.
pub invite-authenticate :
    (platform : Platform) (i : Invites) (h : Handlers) (env env' : Env)
    (email name role password hash : GoString) (tok : Token) (s : Store)
    → ((n : ℕ) (bytes : GoString) → env'.random n ≡ some bytes → Writes n bytes)
    → ((word salt : GoString) (t m p n : ℕ) → Writes n (platform.argon2_key word salt t m p n))
    → IsWellFormed s
    → s.faults.token_err ≡ none
    → s.faults.activate_err ≡ none
    → s.faults.lookup_err ≡ none
    → (invite platform (invite_store env) i env email name role s).0 ≡ ok tok
    → env'.now < add env.now i.invite_ttl
    → hash_of platform (invite_store env') i env' password ≡ ok hash
    → let t : Store = (invite platform (invite_store env) i env email name role s).1 in
      let redeemed : Result ℕ × Store =
        redeem_invite platform (invite_store env') i env' tok.token password t in
      (redeemed.0 ≡ ok tok.user_id)
      × ((u : User) × (u.id ≡ tok.user_id)
          × (u.role ≡ role)
          × ((authenticate platform auth_store h env' email password redeemed.1).0
              ≡ ok (identity_of h u)))
      × ((redeem_invite platform (invite_store env') i env' tok.token password redeemed.1).0
          ≡ err token_not_found)
unfolding redeem_invite
invite-authenticate platform i h env env' email name role password hash tok s random_writes
      key_writes w unforced calm quiet done early hashed =
    let (u, made, token_hashed, own, for, expires, _, stepped, left) =
      invite-ok platform i env email name role tok s done in
    let (own_email, enabled, _) = new_invited_user-ok platform env email name u made in
    let before_end : env'.now < tok.expires_at = rw expires early in
    let st : Store =
      stored platform i env env' email name role password hash tok u s w unforced calm made
        token_hashed own for before_end hashed in
    let re : Store =
      redeemed platform i env env' email name role password hash tok u s w unforced calm made
        token_hashed own for before_end hashed in
    let redeems =
      redeem_invite-ok platform i env env' email name role password hash tok u s w unforced calm
        made token_hashed own for before_end hashed in
    let wst : IsWellFormed st = rw (sym left) (
      step-IsWellFormed (Call.create_token env.now (record tok { token = [] }) 1) _
        (step-IsWellFormed (Call.create_user (record u { role = role })) s w)) in
    let wre =
      redeemed-IsWellFormed platform i env env' email name role password hash tok u s w unforced
        calm made token_hashed own for before_end hashed wst in
    let there =
      redeemed-lookup platform i env env' email name role password hash tok u s w unforced calm made
        token_hashed own for before_end hashed in
    let (_, _, matches, _) =
      verify_password-hash_password platform env' password hash random_writes key_writes
        (hash_of-ok platform i env' password hash hashed) in
    let logs_in =
      authenticate-ok platform h env' email password tok.user_id
        (activated hash (record u { role = role })) re wre quiet there own_email enabled matches in
    let again =
      redeem_invite_again platform i env env' email name role password hash tok u s w unforced calm
        made token_hashed own for before_end hashed wst in
    rw stepped (
      rw left (
        rw redeems
          (refl, (activated hash (record u { role = role }), sym own, refl, logs_in), again)))

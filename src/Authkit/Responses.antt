-- ===== src/Authkit/Responses.antt =====
-- Which entry of the table an error is answered with.
use gouncer.Base.{
  ℕ, ◌≡◌, refl, ap, inl, inr, true, false, none, some, List, [], ◌∷◌, ◌++◌, arith, All, Bool-cases,
}
use gouncer.Core.Errors.{Error, is, setup_misconfigured}
use gouncer.Authkit.ErrorResponses.{
  AuthError, ErrorResponse, internal_error, auth_errors, first_match, error_response_for_auth_error,
  respond_auth_error,
}

-- The entry that answers an error: the first one whose error it is.
pub record IsFirst (e : Error) (table : List AuthError) (status : ℕ) (body : ErrorResponse)
    : Type 0 where
  pub before : List AuthError
  pub entry : AuthError
  pub behind : List AuthError
  pub split : table ≡ before ++ entry ∷ behind
  pub passed : All (λ x. is e x.held ≡ false) before
  pub matches : is e entry.held ≡ true
  pub own_status : entry.status ≡ status
  pub own_body : entry.body ≡ body

first_match-IsFirst :
    (e : Error) (table : List AuthError) (status : ℕ) (body : ErrorResponse)
    → first_match e table ≡ some (status, body)
    → IsFirst e table status body
unfolding first_match
first_match-IsFirst e [] status body h = absurd (ground arith)
first_match-IsFirst e (x ∷ xs) status body h = elim (Bool-cases (is e x.held)) [
  | inl hit ↦ record {
    before = [];
    entry = x;
    behind = xs;
    split = refl;
    passed = tt;
    matches = hit;
    own_status = ground arith;
    own_body = ground arith;
  }
  | inr miss ↦
      let rest = first_match-IsFirst e xs status body (ground arith) in
      record {
        before = x ∷ rest.before;
        entry = rest.entry;
        behind = rest.behind;
        split = ap (◌∷◌ x) rest.split;
        passed = (miss, rest.passed);
        matches = rest.matches;
        own_status = rest.own_status;
        own_body = rest.own_body;
      }
]

respond_auth_error-some :
    (e : Error) (answer : ℕ × ErrorResponse)
    → error_response_for_auth_error e ≡ some answer
    → respond_auth_error e ≡ answer
unfolding respond_auth_error
respond_auth_error-some e answer h = rw (h, respond_auth_error) refl

respond_auth_error-none :
    (e : Error)
    → error_response_for_auth_error e ≡ none
    → respond_auth_error e ≡ (500, internal_error)
unfolding respond_auth_error
respond_auth_error-none e h = rw (h, respond_auth_error) refl

misconfigured_answer :
    (e : Error)
    → is e setup_misconfigured ≡ true
    → error_response_for_auth_error e ≡ some (500, internal_error)
unfolding error_response_for_auth_error first_match
misconfigured_answer e h = rw h refl

-- An error that the table answers is answered by the first of its entries whose error it is. An error
-- that is a misconfigured setup is answered as an internal one, whatever else it is, and so is one that
-- the table does not answer.
pub respond_auth_error-IsFirst :
    (e : Error) (status : ℕ) (body : ErrorResponse)
    → (error_response_for_auth_error e ≡ some (status, body)
        → IsFirst e auth_errors status body × (respond_auth_error e ≡ (status, body)))
      × (is e setup_misconfigured ≡ true → respond_auth_error e ≡ (500, internal_error))
      × (error_response_for_auth_error e ≡ none → respond_auth_error e ≡ (500, internal_error))
unfolding error_response_for_auth_error
respond_auth_error-IsFirst e status body = (
  λ h.
      (first_match-IsFirst e auth_errors status body h, respond_auth_error-some e (status, body) h),
  λ h. respond_auth_error-some e (500, internal_error) (misconfigured_answer e h),
  respond_auth_error-none e,
)

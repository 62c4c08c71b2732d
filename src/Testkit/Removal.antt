-- ===== src/Testkit/Removal.antt =====
-- The sweep of stranded accounts as one removal of every account that it drops.
use gouncer.Base.{
  ℕ, ◌≡◌, refl, ap, ◌∙◌, sym, Bool, true, false, not, ◌&&◌, ◌||◌, Option, none, some, List, [], ◌∷◌,
  arith, ◌==◌, nat_eq, string_eq, contains, eq_refl, Bool-cases, Option-cases, inl, inr,
  if◌then◌else◌,
}
use gouncer.Base.Dict
use gouncer.Base.Dict.{Dict}
use gouncer.Core.Types.{User, Session, Token, purpose_invite}
use gouncer.Testkit.State.{Store}
use gouncer.Testkit.Tokens.{live_for}
use gouncer.Testkit.Sweep.{holds_live_invite, drop_stranded, drop_all, remove_account}

module _ {K V : Type 0} where
  pub delete_func-ext :
      (p q : K → V → Bool) (d : Dict K V)
      → ((k : K) (v : V) → p k v ≡ q k v)
      → Dict.delete_func p d ≡ Dict.delete_func q d
  unfolding Dict.delete_func
  delete_func-ext p q [] same = refl
  delete_func-ext p q ((k, v) ∷ d) same = ground (arith, same k v, delete_func-ext p q d same)

  delete_func-or :
      (p q : K → V → Bool) (d : Dict K V)
      → Dict.delete_func p (Dict.delete_func q d) ≡ Dict.delete_func (λ k v. q k v || p k v) d
  unfolding Dict.delete_func
  delete_func-or p q [] = refl
  delete_func-or p q ((k, v) ∷ d) = ground (arith, delete_func-or p q d)

  delete_func-nothing :
      (p : K → V → Bool) (d : Dict K V)
      → ((k : K) (v : V) → p k v ≡ false)
      → Dict.delete_func p d ≡ d
  unfolding Dict.delete_func
  delete_func-nothing p [] never = refl
  delete_func-nothing p ((k, v) ∷ d) never =
      ground (arith, never k v, delete_func-nothing p d never)

  -- A delete of entries that do not pass a test leaves whether one passes.
  pub any-delete_func :
      (p q : K → V → Bool) (d : Dict K V)
      → ((k : K) (v : V) → p k v ≡ true → q k v ≡ false)
      → Dict.any p (Dict.delete_func q d) ≡ Dict.any p d
  unfolding Dict.any Dict.delete_func
  any-delete_func p q [] apart = refl
  any-delete_func p q ((k, v) ∷ d) apart = ground (arith, apart k v, any-delete_func p q d apart)

lookup-remove :
    {V : Type 0} (r : ℕ → Bool) (j : ℕ) (d : Dict ℕ V)
    → Dict.lookup j (Dict.delete_func (λ i _. r i) d) ≡ (if r j then none else Dict.lookup j d)
unfolding Dict.lookup Dict.delete_func
lookup-remove r j [] = ground arith
lookup-remove r j ((k, v) ∷ d) = elim (Bool-cases (j == k)) [
  | inl hit ↦ let at_key : j ≡ k = ground arith in ground (arith, lookup-remove r j d)
  | inr miss ↦ ground (arith, lookup-remove r j d)
]

-- Removes the accounts of a test on ids, with their sessions and tokens.
abbrev pub remove_all : (ℕ → Bool) → Store → Store
remove_all r s = record s {
  users = Dict.delete_func (λ j _. r j) s.users;
  sessions = Dict.delete_func (λ _ (x : Session). r x.user_id) s.sessions;
  tokens = Dict.delete_func (λ _ (t : Token). r t.user_id) s.tokens;
}

abbrev pub is_idle : Option User → Bool
is_idle none = false
is_idle (some u) = not u.confirmed

-- Whether the sweep drops an account once an expired invite names it.
abbrev pub is_droppable : ℕ → Store → ℕ → Bool
is_droppable now s j = is_idle (Dict.lookup j s.users) && not (holds_live_invite j now s)

abbrev pub is_dropped : List ℕ → ℕ → Store → ℕ → Bool
is_dropped ids now s j = contains ids j && is_droppable now s j

pub remove_all-ext :
    (r q : ℕ → Bool) (s : Store) → ((j : ℕ) → r j ≡ q j) → remove_all r s ≡ remove_all q s
remove_all-ext r q s same = rw (delete_func-ext (λ j _. r j) (λ j _. q j) s.users (λ j _. same j)) (
    rw
      (delete_func-ext (λ _ (x : Session). r x.user_id) (λ _ (x : Session). q x.user_id) s.sessions
        (λ _ x. same x.user_id))
      (rw
        (delete_func-ext (λ _ (t : Token). r t.user_id) (λ _ (t : Token). q t.user_id) s.tokens
          (λ _ t. same t.user_id))
        refl))

remove_all-or :
    (r q : ℕ → Bool) (s : Store) → remove_all r (remove_all q s) ≡ remove_all (λ j. q j || r j) s
remove_all-or r q s = rw (delete_func-or (λ j (_ : User). r j) (λ j _. q j) s.users) (
    rw (delete_func-or (λ _ (x : Session). r x.user_id) (λ _ (x : Session). q x.user_id) s.sessions)
      (rw (delete_func-or (λ _ (t : Token). r t.user_id) (λ _ (t : Token). q t.user_id) s.tokens)
        refl))

remove_all-nothing : (r : ℕ → Bool) (s : Store) → ((j : ℕ) → r j ≡ false) → remove_all r s ≡ s
remove_all-nothing r s never =
    rw (delete_func-nothing (λ j (_ : User). r j) s.users (λ j _. never j)) (
      rw (delete_func-nothing (λ _ (x : Session). r x.user_id) s.sessions (λ _ x. never x.user_id))
        (rw (delete_func-nothing (λ _ (t : Token). r t.user_id) s.tokens (λ _ t. never t.user_id))
          refl))

remove_account-removes : (id : ℕ) (s : Store) → remove_account id s ≡ remove_all (λ j. j == id) s
unfolding Dict.delete
remove_account-removes id s =
    rw (delete_func-ext (λ j (_ : User). id == j) (λ j _. j == id) s.users (λ j _. ground arith))
      refl

drop_stranded-removes :
    (id now : ℕ) (s : Store)
    → drop_stranded id now s ≡ remove_all (λ j. j == id && is_droppable now s id) s
drop_stranded-removes id now s =
    let r : ℕ → Bool = λ j. j == id && is_droppable now s id in
    elim (Option-cases (Dict.lookup id s.users)) [
      | inl absent ↦
          let stays : drop_stranded id now s ≡ s =
            unfold drop_stranded in rw (absent, drop_stranded) refl in
          let spared : is_droppable now s id ≡ false = rw absent refl in
          stays ∙ sym (remove_all-nothing r s (λ j. rw spared ground arith))
      | inr (u, present) ↦ elim (Bool-cases (u.confirmed || holds_live_invite id now s)) [
        | inl kept ↦
            let stays : drop_stranded id now s ≡ s =
              unfold drop_stranded in rw (present, drop_stranded) (rw kept refl) in
            let spared : is_droppable now s id ≡ false = rw present ground arith in
            stays ∙ sym (remove_all-nothing r s (λ j. rw spared ground arith))
        | inr drop ↦
            let goes : drop_stranded id now s ≡ remove_account id s =
              unfold drop_stranded in rw (present, drop_stranded) (rw drop refl) in
            let dropped : is_droppable now s id ≡ true = rw present ground arith in
            goes
            ∙ remove_account-removes id s
            ∙ remove_all-ext (λ j. j == id) r s (λ j. rw dropped ground arith)
      ]
    ]

-- An account that a removal spares is droppable as it was.
is_droppable-remove_all :
    (r : ℕ → Bool) (now j : ℕ) (s : Store)
    → is_droppable now (remove_all r s) j ≡ (not (r j) && is_droppable now s j)
unfolding holds_live_invite
is_droppable-remove_all r now j s = elim (Bool-cases (r j)) [
  | inl gone ↦ rw (lookup-remove r j s.users) (rw gone refl)
  | inr spared ↦
      let same =
        any-delete_func (live_for j purpose_invite now) (λ _ (t : Token). r t.user_id) s.tokens
          (λ k v live. ground arith) in
      rw (lookup-remove r j s.users) (rw spared (rw same refl))
]

-- The loop that drops stranded accounts one by one, each time on what the last one left, removes at once
-- every account of the list that is unconfirmed and holds no live invite at the start, with its sessions
-- and tokens, and nothing else, whatever the order of the list and however often it names an account.
pub drop_all-removes :
    (ids : List ℕ) (now : ℕ) (s : Store) → drop_all ids now s ≡ remove_all (is_dropped ids now s) s
unfolding drop_all contains
drop_all-removes [] now s = sym (remove_all-nothing (is_dropped [] now s) s (λ j. refl))
drop_all-removes (id ∷ ids) now s =
    let q : ℕ → Bool = λ j. j == id && is_droppable now s id in
    let t = remove_all q s in
    ap (drop_all ids now) (drop_stranded-removes id now s)
    ∙ drop_all-removes ids now t
    ∙ remove_all-or (is_dropped ids now t) q s
    ∙ remove_all-ext (λ j. q j || is_dropped ids now t j) (is_dropped (id ∷ ids) now s) s
        (λ j. rw (is_droppable-remove_all q now j s) (elim (Bool-cases (j == id)) [
          | inl hit ↦ let at_id : j ≡ id = ground arith in rw at_id ground (arith, eq_refl id)
          | inr miss ↦ rw miss refl
        ]))

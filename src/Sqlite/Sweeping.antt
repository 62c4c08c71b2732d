-- ===== src/Sqlite/Sweeping.antt =====
-- `sweepStranded` as one removal of the rows that it deletes.
use gouncer.Base.{
  ℕ, ◌≡◌, refl, ap, ◌∙◌, sym, Bool, false, ◌||◌, Option, none, some, List, [], ◌∷◌, arith, ◌==◌,
  nat_eq, string_eq, contains, eq_refl, Bool-cases, Option-cases, inl, inr,
}
use gouncer.Base.Dict
use gouncer.Core.Results.{ok}
use gouncer.Core.Types.{User, purpose_invite}
use gouncer.Sqlite.Rows.{
  Driver, AuthUser, AuthSession, AuthToken, Tables, statement, delete_where, find_where,
  select_where,
}
use gouncer.Sqlite.UserQueries
use gouncer.Sqlite.UserQueries.{
  has_id, ids_of, is_unconfirmed_of, order_ids, place_id, is_swept, live_token, cascade,
}
use gouncer.Sqlite.Users.{stored_user}
use gouncer.Sqlite.Tokens
use gouncer.Sqlite.View.{index, find_where-holds}
use gouncer.Sqlite.Simulation.{calm, users_of}
use gouncer.Sqlite.UsersSimulation.{rows_cases}

module _ {A : Type 0} where
  pub delete_where-ext :
      (p q : A → Bool) (rs : List A) → ((r : A) → p r ≡ q r) → delete_where p rs ≡ delete_where q rs
  unfolding delete_where
  delete_where-ext p q [] same = refl
  delete_where-ext p q (r ∷ rs) same = ground (arith, same r, delete_where-ext p q rs same)

  pub delete_where-nothing :
      (p : A → Bool) (rs : List A) → ((r : A) → p r ≡ false) → delete_where p rs ≡ rs
  unfolding delete_where
  delete_where-nothing p [] never = refl
  delete_where-nothing p (r ∷ rs) never = ground (arith, never r, delete_where-nothing p rs never)

contains-place_id : (i j : ℕ) (l : List ℕ) → contains (place_id i l) j ≡ (j == i || contains l j)
unfolding contains place_id
contains-place_id i j [] = refl
contains-place_id i j (k ∷ l) = ground (arith, contains-place_id i j l)

-- The order of a list does not change what it holds.
contains-order_ids : (j : ℕ) (l : List ℕ) → contains (order_ids l) j ≡ contains l j
unfolding contains order_ids
contains-order_ids j [] = refl
contains-order_ids j (i ∷ l) =
    contains-place_id i j (order_ids l) ∙ rw (contains-order_ids j l) refl

abbrev pub passes : (AuthUser → Bool) → Option AuthUser → Bool
passes p none = false
passes p (some r) = p r

module _ (d : Driver) where
  abbrev by_id : List AuthUser → Dict.Dict ℕ User
  by_id rs = index (λ (r : AuthUser). r.id) (stored_user d) rs

  find-absent :
      (j : ℕ) (rs : List AuthUser)
      → Dict.lookup j (by_id rs) ≡ none
      → find_where (has_id j) rs ≡ none
  unfolding Dict.lookup find_where
  find-absent j [] absent = refl
  find-absent j (r ∷ rs) absent = ground (arith, find-absent j rs)

  select-absent :
      (p : AuthUser → Bool) (j : ℕ) (rs : List AuthUser)
      → Dict.lookup j (by_id rs) ≡ none
      → contains (ids_of (select_where p rs)) j ≡ false
  unfolding Dict.lookup select_where contains
  select-absent p j [] absent = refl
  select-absent p j (r ∷ rs) absent = ground (arith, select-absent p j rs)

  -- The selected ids are those whose row passes.
  contains-select :
      (p : AuthUser → Bool) (j : ℕ) (rs : List AuthUser)
      → Dict.NodupKeys (by_id rs)
      → contains (ids_of (select_where p rs)) j ≡ passes p (find_where (has_id j) rs)
  unfolding select_where contains find_where
  contains-select p j [] nodup = refl
  contains-select p j (r ∷ rs) (fresh, nodup) = elim (Bool-cases (r.id == j)) [
    | inl hit ↦
        let at_id : r.id ≡ j = ground arith in
        let rest = select-absent p j rs (rw at_id at fresh) in ground arith
    | inr miss ↦ ground (arith, contains-select p j rs nodup)
  ]

  -- Deletes agree whose tests do on the rows of the table.
  delete_where-rows :
      (p q : AuthUser → Bool) (rs : List AuthUser)
      → Dict.NodupKeys (by_id rs)
      → ((r : AuthUser) → find_where (has_id r.id) rs ≡ some r → p r ≡ q r)
      → delete_where p rs ≡ delete_where q rs
  unfolding delete_where find_where
  delete_where-rows p q [] nodup same = refl
  delete_where-rows p q (r ∷ rs) (fresh, nodup) same =
      let here : p r ≡ q r = same r (rw (eq_refl r.id) refl) in
      let rest = delete_where-rows p q rs nodup (λ x found.
        same x (elim (Bool-cases (r.id == x.id)) [
          | inl hit ↦
              let at_id : r.id ≡ x.id = ground arith in
              absurd (ground (arith, find-absent r.id rs fresh))
          | inr miss ↦ rw miss found
        ])) in
      ground arith

-- Removes the rows of a test on ids, with their sessions and tokens.
abbrev pub remove_rows : (ℕ → Bool) → Tables → Tables
remove_rows r t = record t {
  users = delete_where (λ u. r u.id) t.users;
  sessions = delete_where (λ x. r x.user_id) t.sessions;
  tokens = delete_where (λ k. r k.user_id) t.tokens;
}

abbrev pub swept_row : List ℕ → ℕ → Tables → AuthUser → Bool
swept_row ids c t = is_swept ids purpose_invite c t.tokens

-- The accounts that the sweep of a list of ids deletes.
abbrev pub is_swept_id : List ℕ → ℕ → Tables → ℕ → Bool
is_swept_id ids c t j = passes (swept_row ids c t) (find_where (has_id j) t.users)

abbrev held_ids : List ℕ → Tables → List ℕ
held_ids ids t = order_ids (ids_of (select_where (is_unconfirmed_of ids) t.users))

module _ (d : Driver) (t : Tables) (nodup : Dict.NodupKeys (users_of d t)) (ids : List ℕ)
    (c : ℕ) where
  held_ids-lem :
      (r : AuthUser) (j : ℕ)
      → find_where (has_id j) t.users ≡ some r
      → contains (held_ids ids t) j ≡ is_unconfirmed_of ids r
  held_ids-lem r j found =
      contains-order_ids j (ids_of (select_where (is_unconfirmed_of ids) t.users))
      ∙ contains-select d (is_unconfirmed_of ids) j t.users nodup
      ∙ rw found refl

  swept-held :
      (r : AuthUser)
      → find_where (has_id r.id) t.users ≡ some r
      → swept_row (held_ids ids t) c t r ≡ swept_row ids c t r
  swept-held r found = rw (held_ids-lem r r.id found) ground arith

  swept_id-held : (j : ℕ) → is_swept_id (held_ids ids t) c t j ≡ is_swept_id ids c t j
  swept_id-held j = elim (Option-cases (find_where (has_id j) t.users)) [
    | inl missing ↦ rw missing refl
    | inr (r, found) ↦
        let at_id : r.id ≡ j =
          let h = find_where-holds (has_id j) t.users r found in ground arith in
        rw found (swept-held r (ap (λ i. find_where (has_id i) t.users) at_id ∙ found))
  ]

  delete_unconfirmed-removes :
      UserQueries.delete_unconfirmed_accounts (held_ids ids t) purpose_invite c (calm t)
      ≡ (ok tt, calm (remove_rows (is_swept_id ids c t) t))
  unfolding UserQueries.delete_unconfirmed_accounts statement
  delete_unconfirmed-removes =
      let p = swept_row (held_ids ids t) c t in
      let gone : (j : ℕ) → contains (ids_of (select_where p t.users)) j ≡ is_swept_id ids c t j =
        λ j. contains-select d p j t.users nodup ∙ swept_id-held j in
      rw
        (delete_where-rows d p (λ u. is_swept_id ids c t u.id) t.users nodup
          (λ r found. swept-held r found ∙ rw found refl))
        (rw
          (delete_where-ext
            (λ (x : AuthSession). contains (ids_of (select_where p t.users)) x.user_id)
            (λ x. is_swept_id ids c t x.user_id) t.sessions (λ x. gone x.user_id))
          (rw
            (delete_where-ext
              (λ (k : AuthToken). contains (ids_of (select_where p t.users)) k.user_id)
              (λ k. is_swept_id ids c t k.user_id) t.tokens (λ k. gone k.user_id))
            refl))

  unheld-swept : held_ids ids t ≡ [] → (j : ℕ) → is_swept_id ids c t j ≡ false
  unfolding contains
  unheld-swept nobody j = elim (Option-cases (find_where (has_id j) t.users)) [
    | inl missing ↦ rw missing refl
    | inr (r, found) ↦
        let spared : is_unconfirmed_of ids r ≡ false =
          sym (held_ids-lem r j found) ∙ rw nobody refl in
        rw found (rw spared refl)
  ]

  remove_rows-nothing :
      ((j : ℕ) → is_swept_id ids c t j ≡ false) → remove_rows (is_swept_id ids c t) t ≡ t
  remove_rows-nothing never =
      rw
        (delete_where-nothing (λ (u : AuthUser). is_swept_id ids c t u.id) t.users
          (λ u. never u.id))
        (rw
          (delete_where-nothing (λ (x : AuthSession). is_swept_id ids c t x.user_id) t.sessions
            (λ x. never x.user_id))
          (rw
            (delete_where-nothing (λ (k : AuthToken). is_swept_id ids c t k.user_id) t.tokens
              (λ k. never k.user_id))
            refl))

unnamed-swept : (t : Tables) (c j : ℕ) → is_swept_id [] c t j ≡ false
unfolding contains
unnamed-swept t c j = elim (Option-cases (find_where (has_id j) t.users)) [
  | inl missing ↦ rw missing refl
  | inr (r, found) ↦ rw found ground arith
]

module _ (d : Driver) (t : Tables) (nodup : Dict.NodupKeys (users_of d t)) (now : ℕ) where
  sweep_held-removes :
      (ids : List ℕ)
      → Tokens.sweep_held d (held_ids ids t) now (calm t)
        ≡ (ok tt, calm (remove_rows (is_swept_id ids (d.to_column now) t) t))
  sweep_held-removes ids =
      let c = d.to_column now in
      elim (rows_cases (held_ids ids t)) [
        | inl nobody ↦
            let stays : Tokens.sweep_held d [] now (calm t) ≡ (ok tt, calm t) =
              unfold Tokens.sweep_held in refl in
            ap (λ l. Tokens.sweep_held d l now (calm t)) nobody
            ∙ stays
            ∙ ap (λ u. (ok tt, calm u))
                (sym (remove_rows-nothing d t nodup ids c (unheld-swept d t nodup ids c nobody)))
        | inr (i, is, some_held) ↦
            let deletes : Tokens.sweep_held d (i ∷ is) now (calm t)
                ≡ UserQueries.delete_unconfirmed_accounts (i ∷ is) purpose_invite c (calm t) =
              unfold Tokens.sweep_held in refl in
            ap (λ l. Tokens.sweep_held d l now (calm t)) some_held
            ∙ deletes
            ∙ ap (λ l. UserQueries.delete_unconfirmed_accounts l purpose_invite c (calm t))
                (sym some_held)
            ∙ delete_unconfirmed-removes d t nodup ids c
      ]

  pub sweep_stranded-removes :
      (ids : List ℕ)
      → Tokens.sweep_stranded d ids now (calm t)
        ≡ (ok tt, calm (remove_rows (is_swept_id ids (d.to_column now) t) t))
  unfolding Tokens.sweep_stranded UserQueries.lock_unconfirmed_accounts statement
  sweep_stranded-removes [] =
      ap (λ u. (ok tt, calm u))
        (sym
          (remove_rows-nothing d t nodup [] (d.to_column now) (unnamed-swept t (d.to_column now))))
  sweep_stranded-removes (i ∷ is) = sweep_held-removes (i ∷ is)

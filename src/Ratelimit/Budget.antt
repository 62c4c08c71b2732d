-- ===== src/Ratelimit/Budget.antt =====
-- How many failed logins the middleware lets through.
use gouncer.Base.{
  ℕ, suc, ◌+◌, ◌≡◌, ◌≤◌, refl, Bool, true, false, none, List, [], ◌∷◌, GoString, arith, not, ◌&&◌,
  ◌==◌, nat_eq, string_eq, Bool-cases, Option-cases, inl, inr, if◌then◌else◌,
}
use gouncer.Core.Results.{ok, is_ok, Result-cases}
use gouncer.Ratelimit.Limiter.{
  Counter, Limiter, truncate, check, record_failure, limit_enter, limit_leave,
}
use gouncer.Ratelimit.Traffic.{Event, enter, leave, Traffic, pass}

-- What httprate documents of its counter: an increment adds to the bucket of its key alone, one that
-- fails may have added or not, and the rate is at least the count of the bucket that the instant is in,
-- the share of the bucket before added.
pub record CountsIn {C : Type 0} (counter : Counter C) (window : ℕ) (count : GoString → ℕ → C → ℕ)
    : Type 0 where
  pub raised :
      (k j : GoString) (b n : ℕ) (c : C)
      → is_ok (counter.increment_by j b n c).0 ≡ true
      → count k b (counter.increment_by j b n c).1 ≡ count k b c + (if j == k then n else 0)
  pub at_least :
      (k j : GoString) (b n : ℕ) (c : C) → count k b c ≤ count k b (counter.increment_by j b n c).1
  pub at_most :
      (k j : GoString) (b n : ℕ) (c : C)
      → count k b (counter.increment_by j b n c).1 ≤ count k b c + (if j == k then n else 0)
  pub rated :
      (k : GoString) (now r : ℕ) (c : C)
      → counter.status k now c ≡ ok r
      → count k (truncate now window) c ≤ r

module _ {C : Type 0} (counter : Counter C) (l : Limiter) where
  -- Whether a request of the key comes back from the wrapped handler with a login that failed.
  abbrev pub fails_at : GoString → Event → Traffic C → Bool
  fails_at k (enter key now) t = false
  fails_at k (leave key now status) t = (key == k && status == 401) && not (t.serving key == 0)

  -- Whether the counter, asked to record the failure, answers an error, which the middleware drops.
  abbrev pub is_lost : GoString → Event → Traffic C → Bool
  is_lost k (enter key now) t = false
  is_lost k (leave key now status) t =
      fails_at k (leave key now status) t
      && not (is_ok (record_failure counter l key now t.counter).0)

  -- How many events of a history the test holds for.
  unfoldable pub tally : (Event → Traffic C → Bool) → List Event → Traffic C → ℕ
  unfolding pass
  tally p [] t = 0
  tally p (e ∷ rest) t =
      let later = tally p rest (pass counter l e t) in if p e t then suc later else later

  -- How many logins of a key fail at the wrapped handler, and how many of those failures the counter
  -- answers an error for.
  abbrev pub failures : GoString → List Event → Traffic C → ℕ
  failures k events t = tally (fails_at k) events t

  abbrev pub lost : GoString → List Event → Traffic C → ℕ
  lost k events t = tally (is_lost k) events t

  abbrev pub instant : Event → ℕ
  instant (enter key now) = now
  instant (leave key now status) = now

  -- Every instant of the history is in the bucket.
  abbrev pub AllIn : ℕ → List Event → Type 0
  AllIn b [] = Unit {0}
  AllIn b (e ∷ rest) = (truncate (instant e) l.window ≡ b) × AllIn b rest

  -- Behind no event of the history are more requests of the key served at once.
  unfoldable pub Within : GoString → ℕ → List Event → Traffic C → Type 0
  unfolding pass
  Within k n [] t = Unit {0}
  Within k n (e ∷ rest) t =
      ((pass counter l e t).serving k ≤ n) × Within k n rest (pass counter l e t)

  module _ (count : GoString → ℕ → C → ℕ) (counts : CountsIn counter l.window count) (k : GoString)
      (b : ℕ) where
    -- What the counter holds for the key in the bucket.
    abbrev held : Traffic C → ℕ
    held t = count k b t.counter

    enter-held :
        (key : GoString) (now : ℕ) (t : Traffic C)
        → held (pass counter l (enter key now) t) ≡ held t
    unfolding pass
    enter-held key now t = elim (Option-cases (limit_enter counter l key now t.counter)) [
      | inl on ↦ rw on refl
      | inr (reply, own) ↦ rw own refl
    ]

    -- A request is passed on below the limit only.
    limit_enter-below :
        (now : ℕ) (c : C)
        → truncate now l.window ≡ b
        → limit_enter counter l k now c ≡ none
        → count k b c + 1 ≤ l.limit
    unfolding limit_enter check
    limit_enter-below now c here on = elim (Result-cases (counter.status k now c)) [
      | inl (e, broken) ↦ absurd (ground arith)
      | inr (rate, known) ↦
          let under : count k b c ≤ rate = rw here at (counts.rated k now rate c known) in
          ground arith
    ]

    enter-budget :
        (m : ℕ) (key : GoString) (now : ℕ) (t : Traffic C)
        → truncate now l.window ≡ b
        → (pass counter l (enter key now) t).serving k ≤ suc m
        → held t + t.serving k ≤ l.limit + m
        → held (pass counter l (enter key now) t) + (pass counter l (enter key now) t).serving k
          ≤ l.limit + m
    unfolding pass
    enter-budget m key now t here beside within =
        elim (Option-cases (limit_enter counter l key now t.counter)) [
          | inr (reply, own) ↦ rw own within
          | inl on ↦ elim (Bool-cases (k == key)) [
            | inr other ↦ rw on (rw other within)
            | inl mine ↦
                let at_key : key ≡ k = ground arith in
                let below = limit_enter-below now t.counter here (rw at_key at on) in
                let few : suc (t.serving k) ≤ suc m = rw mine at (rw on at beside) in
                rw on (rw mine (omega arith))
          ]
        ]

    -- What comes back was served, and its failure is counted, unless the counter answers an error.
    leave-budget :
        (m : ℕ) (key : GoString) (now status : ℕ) (t : Traffic C)
        → truncate now l.window ≡ b
        → held t + t.serving k ≤ l.limit + m
        → let u : Traffic C = pass counter l (leave key now status) t in
          (held u + u.serving k ≤ l.limit + m)
          × ((if fails_at k (leave key now status) t then 1 else 0) + held t
              ≤ held u + (if is_lost k (leave key now status) t then 1 else 0))
    unfolding pass limit_leave record_failure
    leave-budget m key now status t here within =
        let low = counts.at_least k key b 1 t.counter in
        let high = counts.at_most k key b 1 t.counter in
        let exact = counts.raised k key b 1 t.counter in
        elim (Bool-cases (t.serving key == 0)) [
          | inl idle ↦ rw idle (within, ground arith)
          | inr busy ↦ elim (Bool-cases (status == 401)) [
            | inr fine ↦ rw busy (rw fine (ground arith, ground arith))
            | inl refused ↦
                rw busy (rw refused (rw (here, record_failure) (ground arith, ground arith)))
          ]
        ]

  -- Take a history of requests whose instants are all in one bucket of the window, of any keys, each
  -- checked and coming back in any order beside the others, such that the wrapped handler serves at most
  -- m + 1 requests of a key at once. Where an increment adds to the bucket of its key alone, one that
  -- fails may have added or not, and a rate is at least the count of its bucket, the logins of the key
  -- that fail at the handler and what the counter holds for the key at the start are together at most
  -- the limit, m, and the failures that the counter answered an error for. What the counter holds and
  -- the requests of the key that are served at the start are together at most the limit and m.
  pub failures-limit :
      (count : GoString → ℕ → C → ℕ) (k : GoString) (b m : ℕ) (events : List Event) (t : Traffic C)
      → CountsIn counter l.window count
      → AllIn b events
      → Within k (suc m) events t
      → count k b t.counter + t.serving k ≤ l.limit + m
      → failures k events t + count k b t.counter ≤ (l.limit + m) + lost k events t
  unfolding tally Within
  failures-limit count k b m [] t counts all few within = omega arith
  failures-limit count k b m (enter key now ∷ rest) t counts (here, all) (beside, few) within =
      let later =
        failures-limit count k b m rest (pass counter l (enter key now) t) counts all few
          (enter-budget count counts k b m key now t here beside within) in
      let same = enter-held count counts k b key now t in omega arith
  failures-limit count k b m (leave key now status ∷ rest) t counts (here, all) (beside, few)
        within =
      let (next, more) = leave-budget count counts k b m key now status t here within in
      let later =
        failures-limit count k b m rest (pass counter l (leave key now status) t) counts all few
          next in
      ground arith

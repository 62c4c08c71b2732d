-- ===== src/Authkit/ReaperLoop.antt =====
-- reaper.go: the loop of a Reaper, with Start and Stop, as steps that can interleave. Start is called
-- once, Stop by one goroutine at a time, and nothing but the sweeps changes the store. A sweep reads an
-- instant, and its context may end while it runs, by its timeout or by Stop.
use gouncer.Base.{ℕ, ◌≡◌, ◌≢◌, refl, ◌∙◌, Bool, true, false, List, [], ◌∷◌, arith}
use gouncer.Authkit.Reaper.{SessionReaper, sweep}

-- Where the goroutine of the loop is: not launched, at its first sweep, at its `select`, or ended with
-- `done` closed.
pub data Phase : Type 0 where
  unstarted launched selecting ended : Phase

-- Where Stop is on a reaper that was started: not called, waiting for `done`, or returned.
pub data Stopping : Type 0 where
  not_called waiting returned : Stopping

-- `Reaper`, with the store it sweeps.
pub record Reaper (S : Type 0) : Type 0 where
  pub store : S
  pub phase : Phase
  pub cancelled : Bool
  pub stopping : Stopping

-- What `NewReaper` returns, over a store.
abbrev pub new_reaper : {S : Type 0} → S → Reaper S
new_reaper s = record { store = s; phase = unstarted; cancelled = false; stopping = not_called }

-- What the store answers to a sweep, by whether the context of the sweep ends before it is through.
module _ {S : Type 0} (reaper : Bool → SessionReaper S) where
  -- `reapOnce`, whose outcome is logged.
  unfoldable pub reap_once : Bool → ℕ → S → S
  unfolding sweep
  reap_once cut now s = (sweep (reaper cut) now s).1

  -- One step of the goroutine or of a caller.
  pub data Step : Reaper S → Reaper S → Type 0 where
    -- `Start`
    start : (r : Reaper S) → r.phase ≡ unstarted → Step r (record r { phase = launched })
    -- The first sweep of `reapExpiredSessions`
    first :
        (cut : Bool) (now : ℕ) (r : Reaper S)
        → r.phase ≡ launched
        → Step r (record r { store = reap_once cut now r.store; phase = selecting })
    -- A tick, which `select` may take beside a context that is done.
    tick :
        (cut : Bool) (now : ℕ) (r : Reaper S)
        → r.phase ≡ selecting
        → Step r (record r { store = reap_once cut now r.store })
    -- `ctx.Done`, and the close of `done`
    finish :
        (r : Reaper S)
        → r.phase ≡ selecting
        → r.cancelled ≡ true
        → Step r (record r { phase = ended })
    -- `Stop` of a reaper that was never started
    stop_unstarted : (r : Reaper S) → r.phase ≡ unstarted → Step r r
    -- The cancel of `Stop`, which then waits
    stop_cancel :
        (r : Reaper S)
        → r.phase ≢ unstarted
        → r.stopping ≢ waiting
        → Step r (record r { cancelled = true; stopping = waiting })
    -- `Stop` returns once `done` is closed
    stop_return :
        (r : Reaper S)
        → r.stopping ≡ waiting
        → r.phase ≡ ended
        → Step r (record r { stopping = returned })

  pub data Steps : Reaper S → Reaper S → Type 0 where
    no_step : (r : Reaper S) → Steps r r
    one_more : (r q t : Reaper S) → Step r q → Steps q t → Steps r t

  -- What sweeps make of a store, the last one first, each by its context and its instant.
  unfoldable pub swept : List (Bool × ℕ) → S → S
  unfolding reap_once
  swept [] s = s
  swept ((cut, now) ∷ earlier) s = reap_once cut now (swept earlier s)

  abbrev has_swept : Phase → Bool
  has_swept unstarted = false
  has_swept launched = false
  has_swept selecting = true
  has_swept ended = true

  -- The store is what sweeps made of the first, one at least once the loop is past its first sweep; and
  -- a Stop returned only once the loop had ended.
  record IsSound (s : S) (r : Reaper S) : Type 0 where
    sweeps : List (Bool × ℕ)
    made : r.store ≡ swept sweeps s
    past_first : has_swept r.phase ≡ true → sweeps ≢ []
    waited : r.stopping ≡ returned → r.phase ≡ ended

  Step-IsSound : (s : S) (r q : Reaper S) → Step r q → IsSound s r → IsSound s q
  unfolding swept
  Step-IsSound s _ _ (start r here) i = record {
    sweeps = i.sweeps;
    made = i.made;
    past_first = λ e. absurd (ground arith);
    waited = λ e. let over = i.waited e in absurd (ground arith);
  }
  Step-IsSound s _ _ (first cut now r here) i = record {
    sweeps = (cut, now) ∷ i.sweeps;
    made = rw i.made refl;
    past_first = λ _ e. ground arith;
    waited = λ e. let over = i.waited e in absurd (ground arith);
  }
  Step-IsSound s _ _ (tick cut now r here) i = record {
    sweeps = (cut, now) ∷ i.sweeps;
    made = rw i.made refl;
    past_first = λ _ e. ground arith;
    waited = i.waited;
  }
  Step-IsSound s _ _ (finish r here done) i = record {
    sweeps = i.sweeps;
    made = i.made;
    past_first = λ _. i.past_first (rw here refl);
    waited = λ _. refl;
  }
  Step-IsSound s _ _ (stop_unstarted r here) i = i
  Step-IsSound s _ _ (stop_cancel r running free) i = record {
    sweeps = i.sweeps;
    made = i.made;
    past_first = i.past_first;
    waited = λ e. absurd (ground arith);
  }
  Step-IsSound s _ _ (stop_return r here over) i = record {
    sweeps = i.sweeps;
    made = i.made;
    past_first = i.past_first;
    waited = λ _. over;
  }

  Steps-IsSound : (s : S) (r q : Reaper S) → Steps r q → IsSound s r → IsSound s q
  Steps-IsSound s r q (no_step _) i = i
  Steps-IsSound s r q (one_more _ m _ one rest) i =
      Steps-IsSound s m q rest (Step-IsSound s r m one i)

  new_reaper-IsSound : (s : S) → IsSound s (new_reaper s)
  unfolding swept
  new_reaper-IsSound s = record {
    sweeps = [];
    made = refl;
    past_first = λ e. absurd (ground arith);
    waited = λ e. absurd (ground arith);
  }

  Step-ended :
      (r q : Reaper S) → Step r q → r.phase ≡ ended → (q.store ≡ r.store) × (q.phase ≡ ended)
  Step-ended _ _ (start r here) e = absurd (ground arith)
  Step-ended _ _ (first cut now r here) e = absurd (ground arith)
  Step-ended _ _ (tick cut now r here) e = absurd (ground arith)
  Step-ended _ _ (finish r here done) e = absurd (ground arith)
  Step-ended _ _ (stop_unstarted r here) e = absurd (ground arith)
  Step-ended _ _ (stop_cancel r running free) e = (refl, e)
  Step-ended _ _ (stop_return r here over) e = (refl, e)

  Steps-ended : (r q : Reaper S) → Steps r q → r.phase ≡ ended → q.store ≡ r.store
  Steps-ended r q (no_step _) e = refl
  Steps-ended r q (one_more _ m _ one rest) e =
      let (same, over) = Step-ended r m one e in Steps-ended m q rest over ∙ same

  -- Whatever a new reaper and its callers did, once a Stop of the started reaper has returned, no step
  -- of any kind changes the store again: no sweep runs behind it. The store then is what sweeps made of
  -- the first one, at least one of them.
  pub stop_return-IsFinal :
      (s : S) (r q : Reaper S)
      → Steps (new_reaper s) r
      → r.stopping ≡ returned
      → Steps r q
      → (q.store ≡ r.store)
        × ((sweeps : List (Bool × ℕ)) × (sweeps ≢ []) × (r.store ≡ swept sweeps s))
  stop_return-IsFinal s r q before stopped behind =
      let i = Steps-IsSound s (new_reaper s) r before (new_reaper-IsSound s) in
      let over = i.waited stopped in
      (Steps-ended r q behind over, (i.sweeps, i.past_first (rw over refl), i.made))

-- ===== src/Ratelimit/Traffic.antt =====
-- Requests that pass the limit stage of authkit/ratelimit/ratelimit.go side by side: no lock is held
-- between the check of a request and the record of its failure.
use gouncer.Base.{ℕ, suc, ◌-◌, Option, none, some, GoString, nat_eq, string_eq, ◌==◌, if◌then◌else◌}
use gouncer.Ratelimit.Limiter.{Counter, Limiter, Reply, limit_enter, limit_leave}

-- What requests do to the stage: one with a key is checked at an instant, or one that was passed on
-- comes back, with the status that the wrapped handler answered.
pub data Event : Type 0 where
  enter : GoString → ℕ → Event
  leave : GoString → ℕ → ℕ → Event

-- The counter, and how many requests of a key the wrapped handler is serving.
pub record Traffic (C : Type 0) : Type 0 where
  pub counter : C
  pub serving : GoString → ℕ

module _ {C : Type 0} (counter : Counter C) (l : Limiter) where
  abbrev pub entered : GoString → Traffic C → Option Reply → Traffic C
  entered key t (some _) = t
  entered key t none = record t {
    serving = λ j. if j == key then suc (t.serving j) else t.serving j;
  }

  -- One event. A request that comes back was being served.
  unfoldable pub pass : Event → Traffic C → Traffic C
  unfolding limit_enter limit_leave
  pass (enter key now) t = entered key t (limit_enter counter l key now t.counter)
  pass (leave key now status) t = if t.serving key == 0 then t else record {
    counter = limit_leave counter l key now status t.counter;
    serving = λ j. if j == key then t.serving j - 1 else t.serving j;
  }

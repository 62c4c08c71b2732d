-- ===== src/Authkit/ReaperCases.antt =====
-- A store that only counts what has expired, swept, stopped and stopped again.
use gouncer.Base.{ℕ, ◌≡◌, ◌≢◌, refl, Bool, true, false, some, List, [], arith, if◌then◌else◌}
use gouncer.Core.Results.{ok}
use gouncer.Authkit.Reaper.{SessionReaper, sweep}
use gouncer.Authkit.ReaperLoop.{
  selecting, launched, ended, not_called, waiting, returned, Reaper, new_reaper, start, first,
  finish, stop_cancel, stop_return, Steps, no_step, one_more, reap_once, swept, stop_return-IsFinal,
}

-- A sweep that is cut short leaves the sessions.
abbrev counting : Bool → SessionReaper ℕ
counting cut = record {
  delete_expired_sessions = λ now s. (ok s, if cut then s else 0);
  delete_expired_tokens = some (λ now s. (ok 0, s));
}

abbrev running : Reaper ℕ
running = record { store = 5; phase = launched; cancelled = false; stopping = not_called }

abbrev at_select : Reaper ℕ
at_select = record { store = 0; phase = selecting; cancelled = false; stopping = not_called }

abbrev cancelled : Reaper ℕ
cancelled = record { store = 0; phase = selecting; cancelled = true; stopping = waiting }

abbrev over : Reaper ℕ
over = record { store = 0; phase = ended; cancelled = true; stopping = waiting }

abbrev stopped : Reaper ℕ
stopped = record { store = 0; phase = ended; cancelled = true; stopping = returned }

-- Started, swept, stopped.
stopped_once : Steps counting (new_reaper 5) stopped
unfolding reap_once sweep
stopped_once = one_more (new_reaper 5) running stopped (start (new_reaper 5) refl) (
    one_more running at_select stopped (first false 9 running refl) (
      one_more at_select cancelled stopped
        (stop_cancel at_select (λ e. ground arith) (λ e. ground arith))
        (one_more cancelled over stopped (finish cancelled refl refl)
          (one_more over stopped stopped (stop_return over refl refl) (no_step stopped)))))

-- Stopped again.
stopped_twice : Steps counting stopped over
stopped_twice =
    one_more stopped over over (stop_cancel stopped (λ e. ground arith) (λ e. ground arith))
      (no_step over)

stop_return-IsFinal_example :
    (over.store ≡ stopped.store)
    × ((sweeps : List (Bool × ℕ)) × (sweeps ≢ []) × (stopped.store ≡ swept counting sweeps 5))
stop_return-IsFinal_example =
    stop_return-IsFinal counting 5 stopped over stopped_once refl stopped_twice

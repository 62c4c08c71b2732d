-- ===== src/Testkit/Calls.antt =====
-- The store as a state machine: its state-changing methods as calls, and a history as a list of them.
use gouncer.Base.{ℕ, Bool, List, [], ◌∷◌, GoString}
use gouncer.Core.Roles.{Roles}
use gouncer.Core.Types.{User, Session, Token}
use gouncer.Testkit.State.{Store}
use gouncer.Testkit.Accounts
use gouncer.Testkit.Sessions
use gouncer.Testkit.Guard
use gouncer.Testkit.Tokens
use gouncer.Testkit.Sweep

pub data Call : Type 0 where
  create_user create_first_user : User → Call
  grant_role_to_roleless : GoString → Call
  create_session : Session → Call
  delete_session : GoString → Call
  delete_expired_sessions : ℕ → Call
  set_user_disabled : ℕ → Bool → Call
  set_user_disabled_under_cover : ℕ → Bool → Roles → Call
  set_user_disabled_from : ℕ → GoString → Bool → Roles → Call
  set_user_role : ℕ → GoString → Roles → Call
  set_user_role_from : ℕ → GoString → GoString → Roles → Call
  create_token : ℕ → Token → ℕ → Call
  replace_token : Token → Call
  activate_by_token reset_by_token : GoString → ℕ → GoString → Call
  delete_expired_tokens : ℕ → Call

-- What a call leaves, whatever it answers.
unfoldable pub step : Call → Store → Store
step (create_user u) s = (Accounts.create_user u s).1
step (create_first_user u) s = (Accounts.create_first_user u s).1
step (grant_role_to_roleless role) s = (Accounts.grant_role_to_roleless role s).1
step (create_session x) s = (Sessions.create_session x s).1
step (delete_session hash) s = (Sessions.delete_session hash s).1
step (delete_expired_sessions now) s = (Sessions.delete_expired_sessions now s).1
step (set_user_disabled id disabled) s = (Guard.set_user_disabled id disabled s).1
step (set_user_disabled_under_cover id disabled privileged) s =
    (Guard.set_user_disabled_under_cover id disabled privileged s).1
step (set_user_disabled_from id held disabled privileged) s =
    (Guard.set_user_disabled_from id held disabled privileged s).1
step (set_user_role id role privileged) s = (Guard.set_user_role id role privileged s).1
step (set_user_role_from id held role privileged) s =
    (Guard.set_user_role_from id held role privileged s).1
step (create_token now t live) s = (Tokens.create_token now t live s).1
step (replace_token t) s = (Tokens.replace_token t s).1
step (activate_by_token hash now password_hash) s =
    (Tokens.activate_by_token hash now password_hash s).1
step (reset_by_token hash now password_hash) s = (Tokens.reset_by_token hash now password_hash s).1
step (delete_expired_tokens now) s = (Sweep.delete_expired_tokens now s).1

unfoldable pub run : List Call → Store → Store
unfolding step
run [] s = s
run (c ∷ cs) s = run cs (step c s)

-- ===== src/Daemon/Finish.antt =====
-- crates/deptui-agent/src/daemon.rs: `finish_run`, `ValidateDone` and the queue that both drain.
use deptui.Prelude.{
  ℕ, String, Bool, false, none, some, List, [], ◌∷◌, if◌then◌else◌, is_some, any_by, unwrap_or,
}
use deptui.Wire.{from_outcome}
use deptui.State.{
  HostRun, RunRecord, WatchState, apply_outcome, update_watch, update_host, push_run,
}
use deptui.Daemon.{
  Clocks, Daemon, Task, return, here, modify, now, save_state, schedule_recheck, ◌>>=◌, ◌>>◌,
}
use deptui.Daemon.Poll.{request_poll}
use deptui.Effects.{Env}

-- Every host's outcome, folded into the standing state of the watch.
unfoldable pub fold_outcomes : String → ℕ → List HostRun → WatchState → WatchState
unfolding update_host apply_outcome
fold_outcomes rev time [] ws = ws
fold_outcomes rev time (hr ∷ rest) ws =
    fold_outcomes rev time rest (update_host hr.host (λ hs. apply_outcome hs hr rev time) ws)

unfoldable pub had_offline : List HostRun → Bool
unfolding from_outcome
had_offline hosts = any_by (λ h. is_some (from_outcome h.outcome)) hosts

-- What a finished run does to the state, before the state is written.
unfoldable pub settle_run : String → RunRecord → ℕ → Daemon → Daemon
unfolding fold_outcomes update_watch push_run
settle_run watch run time d = record d {
  state = push_run watch run (update_watch watch (fold_outcomes run.rev time run.hosts) d.state);
  running = none;
}

unfoldable pub clear_pending : Daemon → Daemon
clear_pending d = record d { pending = [] }

unfoldable pub end_validation : Daemon → Daemon
end_validation d = record d { validating = false }

module _ (env : Env) (clocks : Clocks) where
  -- The loop over what was taken from the queue: it ends at the first run that starts.
  unfoldable pub poll_taken : List (String × String) → Task (Unit {0})
  unfolding return here ◌>>=◌
  poll_taken [] = return tt
  poll_taken ((watch, trigger) ∷ rest) = do
    request_poll env watch trigger
    d ← here
    elim d.running [ some run ↦ return tt | none ↦ poll_taken rest ]

  -- `mem::take` of the queue, and the loop over it.
  unfoldable pub drain_pending : Task (Unit {0})
  unfolding poll_taken clear_pending here modify ◌>>=◌
  drain_pending = do d ← here; modify clear_pending; poll_taken d.pending

  unfoldable pub finish_run : String → RunRecord → Task (Unit {0})
  unfolding settle_run had_offline save_state schedule_recheck drain_pending now modify return ◌>>=◌
  finish_run watch run = do
    time ← now λ calls. unwrap_or run.finished (env.now calls)
    modify (settle_run watch run time)
    save_state
    if had_offline run.hosts then schedule_recheck clocks watch else return tt
    drain_pending

  unfoldable pub finish_validation : Task (Unit {0})
  unfolding drain_pending end_validation modify ◌>>=◌
  finish_validation = do modify end_validation; drain_pending

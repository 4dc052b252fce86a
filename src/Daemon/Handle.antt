-- ===== src/Daemon/Handle.antt =====
-- crates/deptui-agent/src/daemon.rs: `handle_cmd` and the main loop's rounds.
use deptui.Prelude.{String, Bool, true, false, ◌&&◌, List, is_some}
use deptui.Prelude.Result.{Result, err}
use deptui.Wire.{AgentStatus, RunSummary}
use deptui.Daemon.{Cmd, Clocks, Task, return, here, modify, now, idle, ◌>>=◌, ◌>>◌}
use deptui.Daemon.Report
use deptui.Daemon.Control
use deptui.Daemon.Finish.{finish_run, finish_validation}
use deptui.Daemon.Due.{poll_due, recheck_due}
use deptui.Effects.{Env}

-- What a command is answered. The answer of a validation comes when it is through, or never if the
-- command is internal.
pub data Reply : Type 0 where
  status : AgentStatus → Reply
  history : Result (List RunSummary) → Reply
  lines : Result (List String) → Reply
  text : Result String → Reply
  later nothing : Reply

-- `Validate`, by whether a run and whether a validation is under way.
unfoldable pub validate_at : Bool → Bool → Task Reply
unfolding modify return ◌>>=◌
validate_at true validating = return (text (err "a run is in flight — validate after it finishes"))
validate_at false true = return (text (err "a validation is already running"))
validate_at false false = modify (λ d. record d { validating = true }) >>= λ u. return later

unfoldable pub start_validation : Task Reply
unfolding validate_at here ◌>>=◌
start_validation = do d ← here; validate_at (is_some d.running) d.validating

module _ (env : Env) (clocks : Clocks) (version : String) where
  unfoldable pub handle_cmd : Cmd → Task Reply
  unfolding start_validation here now return ◌>>=◌
  handle_cmd Cmd.status = do
    d ← here
    unix ← now env.now
    instant ← now clocks.instant
    return (status (Report.status version unix instant d))
  handle_cmd (Cmd.history watch) = do d ← here; return (history (Report.history d watch))
  handle_cmd (Cmd.run_log watch run) = do d ← here; return (lines (Report.run_log d watch run))
  handle_cmd (Cmd.kick watch) = Control.kick env watch >>= λ r. return (text r)
  handle_cmd (Cmd.set_paused scope paused) =
      Control.set_paused scope paused >>= λ r. return (text r)
  handle_cmd (Cmd.approve watch host revoke) =
      Control.approve watch host revoke >>= λ r. return (text r)
  handle_cmd Cmd.validate = start_validation
  handle_cmd Cmd.validate_done = finish_validation env clocks >>= λ u. return nothing
  handle_cmd Cmd.cancel_run = Control.cancel_run >>= λ r. return (text r)
  handle_cmd (Cmd.run_done watch run) = finish_run env clocks watch run >>= λ u. return nothing

  -- A round of the loop on a command: does the daemon exit to restart into an update?
  unfoldable pub on_command : Cmd → Task Bool
  unfolding here return ◌>>=◌ idle
  on_command cmd = do handle_cmd cmd; d ← here; return (d.restart_wanted && idle d)

  -- A round on the timer, before the self-restart check.
  unfoldable pub on_timer : Task (Unit {0})
  unfolding ◌>>=◌
  on_timer = do poll_due env clocks; recheck_due env clocks

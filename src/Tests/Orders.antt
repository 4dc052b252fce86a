-- ===== src/Tests/Orders.antt =====
-- Tests of the orchestrator: what commands and timers lead to.
use deptui.Prelude.{
  ℕ, ◌≤◌, ◌+◌, String, ◌≡◌, ◌≢◌, ◌↔◌, refl, Bool, true, false, Option, none, some, List, [], ◌∷◌,
  ◌++◌, unwrap_or, length, map, ◌⊎◌, inl, inr, arith,
}
use deptui.Prelude.Text.{member}
use deptui.Prelude.Map.{Map, get, contains_key}
use deptui.State.{
  RunRecord, HostState, new_state, new_watch, new_host, max_history, watch_state, host_state,
  push_run,
}
use deptui.State.Outcome.{Exclusive}
use deptui.State.History.{push_run-history, push_run-fits}
use deptui.Daemon.{Cmd, System, Daemon, RunningRun}
use deptui.State.Load.{missing, garbled, load_state, load_state-Exclusive}
use deptui.Config.{every}
use deptui.Prelude.Result.{Result, ok}
use deptui.Daemon.Startup.{new_daemon, resume_rechecks}
use deptui.Daemon.Started.{fresh_system, new_daemon-Sound}
use deptui.Tests.Data.{blank, config}
use deptui.Daemon.Sound.{Sound}
use deptui.Daemon.Safety.{start, command, timer, Reaches-Sound}
use deptui.Daemon.Busy.{Untouched, first_polled, request_poll-refused, drain_pending-lost}
use deptui.Daemon.Poll.{request_poll}
use deptui.Daemon.Folded.{after_entry}
use deptui.Daemon.Finished.{finish_run-after_entry}
use deptui.Daemon.Kicked.{Heard, kick-Heard}
use deptui.Daemon.Histories.{Falling, count_by, history-Falling}
use deptui.Daemon.Report.{collect, sort_runs, known_watch, history}
use deptui.Daemon.Finish.{finish_run}
use deptui.Daemon.Control.{kick, approve}
use deptui.Daemon.Approvals.{Answered, approve-Answered}
use deptui.Daemon.Finish.{drain_pending}
use deptui.Daemon.Handle.{handle_cmd, on_timer}
use deptui.Daemon.Plan.{plan_hosts, plan_host, idle_reason}
use deptui.Daemon.Needs.{Needs, plan_names, plan_hosts-Needs}
use deptui.Daemon.Rounds.{idle_reason_of_not_planned}
use deptui.Tests.Data.{alpha_failed, world, clocks, fleet, rested, at_rest, first_run}

rested-Sound : Sound rested []
rested-Sound = record { orderly = record { one = refl; distinct = tt; fresh = tt }; queued = refl }

abbrev after_kick : System
after_kick = (handle_cmd world clocks "1" (Cmd.kick none) at_rest).1

abbrev after_round : System
after_round =
    (on_timer world clocks "1"
      (handle_cmd world clocks "1" (Cmd.run_done "fleet" first_run) after_kick).1).1

Reaches-Sound_example : Sound after_round.daemon after_round.runs
Reaches-Sound_example =
    Reaches-Sound world clocks "1"
      (timer (command (Cmd.run_done "fleet" first_run) (command (Cmd.kick none) start)))
      rested-Sound

abbrev validating : System
validating = record at_rest { daemon = record rested { validating = true } }

request_poll-refused_example : Untouched validating (request_poll world "fleet" "poll" validating).1
request_poll-refused_example = request_poll-refused world "fleet" "poll" validating refl

kick-Heard_example : Heard ("fleet" ∷ []) validating (kick world (some "fleet") validating)
unfolding deptui.Daemon.Control.kick_names
kick-Heard_example = kick-Heard world (some "fleet") ("fleet" ∷ []) validating refl refl

abbrev crowded : System
crowded = record at_rest {
  daemon = record rested { pending = ("fleet", "kick") ∷ ("other", "poll") ∷ [] };
}

abbrev fleet_run : RunningRun
fleet_run = record {
  watch = "fleet";
  rev = "abc123";
  trigger = "kick";
  started = 1000;
  run_id = 1;
  cancel_sent = false;
}

drain_pending-lost_example :
    ((drain_pending world clocks crowded).1 ≡ first_polled world clocks "fleet" "kick" crowded)
    × ((first_polled world clocks "fleet" "kick" crowded).daemon.pending ≡ [])
unfolding request_poll deptui.Daemon.Finish.clear_pending get deptui.Config.refspec
    deptui.Gitwatch.ls_remote deptui.Prelude.Text.lines deptui.Prelude.Text.split_whitespace
    plan_hosts deptui.Prelude.Map.insert
drain_pending-lost_example =
    drain_pending-lost world clocks "fleet" "kick" (("other", "poll") ∷ []) crowded fleet_run refl
      refl refl

push_run-history_example :
    (length (watch_state (push_run "fleet" first_run new_state) "fleet").history ≤ max_history)
    × ((lost : List RunRecord) × ((watch_state new_state "fleet").history ++ first_run ∷ []
          ≡ lost ++ (watch_state (push_run "fleet" first_run new_state) "fleet").history))
push_run-history_example = push_run-history "fleet" first_run new_state

push_run-fits_example :
    (watch_state (push_run "fleet" first_run new_state) "fleet").history
    ≡ (watch_state new_state "fleet").history ++ first_run ∷ []
unfolding get
push_run-fits_example = push_run-fits "fleet" first_run new_state (omega arith)

plan_hosts-Needs_example :
    (member "alpha" (plan_names (plan_hosts new_watch "abc123" fleet.hosts)) ≡ true)
    ↔ ((contains_key "alpha" fleet.hosts ≡ true) × Needs (host_state new_watch "alpha") "abc123")
plan_hosts-Needs_example = plan_hosts-Needs new_watch "abc123" fleet.hosts "alpha"

abbrev paused_host : HostState
paused_host = record new_host { paused = true }

idle_reason_of_not_planned_example : idle_reason paused_host "abc123" ≢ none
unfolding plan_host
idle_reason_of_not_planned_example = idle_reason_of_not_planned "alpha" paused_host "abc123" refl

load_state-Exclusive_example : Exclusive (host_state (watch_state new_state "fleet") "alpha")
unfolding load_state
load_state-Exclusive_example =
    load_state-Exclusive "/var/lib/agent/state.json" garbled new_state "fleet" "alpha" refl

abbrev any_cron : String → Result (Unit {0})
any_cron text = ok tt

abbrev started_daemon : Daemon
started_daemon = record rested {
  cadences = ("fleet", every 300) ∷ [];
  next_poll = ("fleet", 307) ∷ [];
}

abbrev resumed_system : System
resumed_system = (resume_rechecks clocks (fresh_system started_daemon blank)).1

abbrev kicked_system : System
kicked_system = (handle_cmd world clocks "1" (Cmd.kick none) resumed_system).1

new_daemon-Sound_example : Sound kicked_system.daemon kicked_system.runs
unfolding new_daemon deptui.Prelude.Map.insert
new_daemon-Sound_example =
    new_daemon-Sound any_cron clocks [] world "1" config missing none started_daemon blank
      kicked_system refl (command (Cmd.kick none) start)

abbrev finishing : System
finishing = record crowded { daemon = record crowded.daemon { running = some fleet_run } }

finish_run-after_entry_example :
    host_state
      (watch_state (finish_run world clocks "fleet" first_run finishing).1.daemon.state "fleet")
      "alpha"
    ≡ after_entry
        (some alpha_failed)
        (host_state (watch_state new_state "fleet") "alpha")
        "abc123"
        (unwrap_or first_run.finished (world.now finishing.machine.calls))
finish_run-after_entry_example =
    finish_run-after_entry world clocks "fleet" "fleet" "alpha" first_run finishing
      (refl, (refl, tt))

abbrev recorded : Daemon
recorded = record rested { state = push_run "fleet" first_run new_state }

history-Falling_example :
    Falling (sort_runs (collect none recorded.state.watches))
    × (count_by (λ r. true) (sort_runs (collect none recorded.state.watches))
        ≡ count_by (λ r. true) (collect none recorded.state.watches))
unfolding history known_watch
history-Falling_example =
    history-Falling recorded none (sort_runs (collect none recorded.state.watches)) (λ r. true) refl

approve-Answered_example :
    Answered "fleet" "alpha" false at_rest (approve (some "fleet") "alpha" false at_rest)
approve-Answered_example = approve-Answered "fleet" "alpha" false at_rest

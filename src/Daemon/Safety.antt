-- ===== src/Daemon/Safety.antt =====
-- crates/deptui-agent/src/daemon.rs: the invariant holds in every state that commands and timers lead to.
use deptui.Prelude.{String, refl, Bool, true, false, Option, none, some, List, [], ◌∷◌}
use deptui.Prelude.Map.{get, remove}
use deptui.Config.{WatchConfig, Cadence}
use deptui.State.{OfflineStamp, update_watch, watch_state}
use deptui.Runner.{check_reachable}
use deptui.Daemon.{
  Cmd, Clocks, System, act, here, now, save_state, watch_cfg, poll_entry, reschedule,
}
use deptui.Daemon.Finish.{finish_run, finish_validation}
use deptui.Daemon.Control
use deptui.Daemon.Report
use deptui.Daemon.Due.{
  override_of, verdict_of, probe_hosts, hear_all, any_back, any_down, catch_up_poll, rearm,
  recheck_hosts, pending_hosts, recheck, recheck_all, recheck_due, poll_all, poll_due, due_names,
}
use deptui.Daemon.Handle.{Reply, handle_cmd, on_timer}
use deptui.Daemon.Poll.{request_poll}
use deptui.Daemon.Keeps.{
  Keeps, Keeps-return, Keeps-now, Keeps-act, Keeps-here, Keeps-save_state, Keeps-modify, Keeps-bind,
}
use deptui.Daemon.Sound.{Sound, Keeps-request}
use deptui.Daemon.Invariant.{
  Keeps-state, Sound-recheck, Sound-recheck_at, Clears-finish, Clears-validation, Keeps-of_Clears,
}
use deptui.Daemon.Commands.{
  Keeps-set_paused, Keeps-approve, Keeps-cancel, Keeps-validate, Keeps-kick,
}
use deptui.Effects.{Env}

module _ (env : Env) (clocks : Clocks) where
  Keeps-probe :
      (w : Option WatchConfig) (pending : List (String × OfflineStamp))
      → Keeps Sound (probe_hosts env clocks w pending)
  unfolding probe_hosts
  Keeps-probe w [] = Keeps-return Sound []
  Keeps-probe w ((host, stamp) ∷ rest) =
      Keeps-bind Sound (act (check_reachable env stamp.target (override_of w host))) _
        (Keeps-act Sound _)
        λ r.
          Keeps-bind Sound (probe_hosts env clocks w rest) _ (Keeps-probe w rest)
            λ more. Keeps-return Sound ((host, verdict_of r) ∷ more)

  Keeps-catch_up : (watch : String) (b : Bool) → Keeps Sound (catch_up_poll env clocks watch b)
  unfolding catch_up_poll
  Keeps-catch_up watch false = Keeps-return Sound tt
  Keeps-catch_up watch true =
      Keeps-bind Sound save_state _ (Keeps-save_state Sound) λ u. Keeps-request env watch "catch-up"

  Keeps-rearm : (watch : String) (b : Bool) → Keeps Sound (rearm env clocks watch b)
  unfolding rearm
  Keeps-rearm watch false = Keeps-return Sound tt
  Keeps-rearm watch true =
      Keeps-bind Sound save_state _ (Keeps-save_state Sound) λ u. Sound-recheck env clocks watch

  Keeps-recheck_hosts :
      (watch : String) (pending : List (String × OfflineStamp))
      → Keeps Sound (recheck_hosts env clocks watch pending)
  unfolding recheck_hosts update_watch
  Keeps-recheck_hosts watch [] = Keeps-return Sound tt
  Keeps-recheck_hosts watch (p ∷ pending) = Keeps-bind Sound here _ (Keeps-here Sound) λ d.
      Keeps-bind Sound (probe_hosts env clocks (watch_cfg d watch) (p ∷ pending)) _
        (Keeps-probe (watch_cfg d watch) (p ∷ pending))
        λ verdicts.
          Keeps-bind Sound _ _ (Keeps-state (update_watch watch (hear_all verdicts)) λ st. refl)
            λ u.
              Keeps-bind Sound (catch_up_poll env clocks watch (any_back verdicts)) _
                (Keeps-catch_up watch (any_back verdicts))
                λ v. Keeps-rearm watch (any_down verdicts)

  Keeps-recheck : (watch : String) → Keeps Sound (recheck env clocks watch)
  unfolding recheck
  Keeps-recheck watch =
      Keeps-bind Sound _ _
        (Keeps-modify Sound (λ d. record d { recheck_at = remove watch d.recheck_at })
          λ d runs. Sound-recheck_at env clocks d (remove watch d.recheck_at) runs)
        λ u.
          Keeps-bind Sound here _ (Keeps-here Sound)
            λ d. Keeps-recheck_hosts watch (pending_hosts (watch_state d.state watch).hosts)

  Keeps-recheck_all : (names : List String) → Keeps Sound (recheck_all env clocks names)
  unfolding recheck_all
  Keeps-recheck_all [] = Keeps-return Sound tt
  Keeps-recheck_all (w ∷ rest) =
      Keeps-bind Sound (recheck env clocks w) _ (Keeps-recheck w) λ u. Keeps-recheck_all rest

  Sound-poll_entry :
      (watch : String) (o : Option Cadence) (s : System)
      → Sound s.daemon s.runs
      → Sound (poll_entry clocks watch s o).1.daemon (poll_entry clocks watch s o).1.runs
  unfolding poll_entry
  Sound-poll_entry watch none s h = h
  Sound-poll_entry watch (some c) s h = record {
    orderly = record {
      one = h.orderly.one;
      distinct = h.orderly.distinct;
      fresh = h.orderly.fresh;
    };
    queued = h.queued;
  }

  Keeps-reschedule : (watch : String) → Keeps Sound (reschedule clocks watch)
  unfolding reschedule
  Keeps-reschedule watch = record {
    at = λ s h. Sound-poll_entry watch (get watch s.daemon.cadences) s h;
  }

  Keeps-poll_all : (names : List String) → Keeps Sound (poll_all env clocks names)
  unfolding poll_all
  Keeps-poll_all [] = Keeps-return Sound tt
  Keeps-poll_all (w ∷ rest) = Keeps-bind Sound (reschedule clocks w) _ (Keeps-reschedule w) λ u.
      Keeps-bind Sound (request_poll env w "poll") _ (Keeps-request env w "poll")
        λ v. Keeps-poll_all rest

  Keeps-poll_due : Keeps Sound (poll_due env clocks)
  unfolding poll_due
  Keeps-poll_due =
      Keeps-bind Sound (now clocks.instant) _ (Keeps-now Sound clocks.instant) λ t.
        Keeps-bind Sound here _ (Keeps-here Sound) λ d. Keeps-poll_all (due_names t d.next_poll)

  Keeps-recheck_due : Keeps Sound (recheck_due env clocks)
  unfolding recheck_due
  Keeps-recheck_due = Keeps-bind Sound (now clocks.instant) _ (Keeps-now Sound clocks.instant) λ t.
      Keeps-bind Sound here _ (Keeps-here Sound) λ d. Keeps-recheck_all (due_names t d.recheck_at)

  module _ (version : String) where
    Keeps-timer : Keeps Sound (on_timer env clocks version)
    unfolding on_timer
    Keeps-timer = Keeps-bind Sound (poll_due env clocks) _ Keeps-poll_due λ u. Keeps-recheck_due

    Keeps-cmd : (cmd : Cmd) → Keeps Sound (handle_cmd env clocks version cmd)
    unfolding handle_cmd
    Keeps-cmd Cmd.status = Keeps-bind Sound here _ (Keeps-here Sound) λ d.
        Keeps-bind Sound (now env.now) _ (Keeps-now Sound env.now) λ unix.
          Keeps-bind Sound (now clocks.instant) _ (Keeps-now Sound clocks.instant)
            λ instant. Keeps-return Sound (Reply.status (Report.status version unix instant d))
    Keeps-cmd (Cmd.history watch) =
        Keeps-bind Sound here _ (Keeps-here Sound)
          λ d. Keeps-return Sound (Reply.history (Report.history d watch))
    Keeps-cmd (Cmd.run_log watch run) =
        Keeps-bind Sound here _ (Keeps-here Sound)
          λ d. Keeps-return Sound (Reply.lines (Report.run_log d watch run))
    Keeps-cmd (Cmd.kick watch) =
        Keeps-bind Sound (Control.kick env watch) _ (Keeps-kick env watch)
          λ r. Keeps-return Sound (Reply.text r)
    Keeps-cmd (Cmd.set_paused scope paused) =
        Keeps-bind Sound (Control.set_paused scope paused) _ (Keeps-set_paused scope paused)
          λ r. Keeps-return Sound (Reply.text r)
    Keeps-cmd (Cmd.approve watch host revoke) =
        Keeps-bind Sound (Control.approve watch host revoke) _ (Keeps-approve watch host revoke)
          λ r. Keeps-return Sound (Reply.text r)
    Keeps-cmd Cmd.validate = Keeps-validate
    Keeps-cmd Cmd.validate_done =
        Keeps-bind Sound (finish_validation env clocks) _
          (Keeps-of_Clears env clocks _ (Clears-validation env clocks))
          λ u. Keeps-return Sound Reply.nothing
    Keeps-cmd Cmd.cancel_run =
        Keeps-bind Sound Control.cancel_run _ Keeps-cancel λ r. Keeps-return Sound (Reply.text r)
    Keeps-cmd (Cmd.run_done watch run) =
        Keeps-bind Sound (finish_run env clocks watch run) _
          (Keeps-of_Clears env clocks _ (Clears-finish env clocks watch run))
          λ u. Keeps-return Sound Reply.nothing

    -- What a sequence of commands and timer rounds leads to.
    pub data Reaches (s : System) : System → Type 0 where
      start : Reaches s s
      command :
          {t : System}
          → (cmd : Cmd) → Reaches s t
          → Reaches s (handle_cmd env clocks version cmd t).1
      timer : {t : System} → Reaches s t → Reaches s (on_timer env clocks version t).1

    -- Whatever commands and timer rounds come, in whatever order and with whatever answers from the
    -- world, the orchestrator's invariant holds if it held at first: no run goes beside a
    -- validation, no watch waits twice in the queue, polls wait only while the daemon is busy, and
    -- each run has the number that follows the one of the run before it, `u64` wrap-around
    -- included, up to the counter.
    pub Reaches-Sound : {s t : System} → Reaches s t → Sound s.daemon s.runs → Sound t.daemon t.runs
    Reaches-Sound start h = h
    Reaches-Sound (command cmd r) h = (Keeps-cmd cmd).at _ (Reaches-Sound r h)
    Reaches-Sound (timer r) h = Keeps-timer.at _ (Reaches-Sound r h)

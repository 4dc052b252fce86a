-- ===== src/Daemon/Finished.antt =====
-- crates/deptui-agent/src/daemon.rs: what `finish_run`, with the polls that waited, leaves of each host.
use deptui.Prelude.{
  ℕ, String, ◌≡◌, refl, ◌∙◌, ap, Bool, true, false, ◌||◌, Option, none, some, List, [], ◌∷◌, ◌==◌,
  if◌then◌else◌, find_by, is_some, unwrap_or, arith, eq_iff,
}
use deptui.Config.{WatchConfig}
use deptui.State.{RunRecord, HostState, AgentState, watch_state, host_state, update_watch}
use deptui.State.History.{watch_state-update}
use deptui.Runner.{PlanHost, RunPlan}
use deptui.Daemon.{
  Daemon, System, Clocks, Task, RunningRun, here, modify, now, return, save_state, watch_cfg,
  schedule_recheck, ◌>>=◌, ◌>>◌,
}
use deptui.Daemon.Poll.{spawn_run, fresh_run_id, record_head, poll_head, request_poll}
use deptui.Daemon.Finish.{
  settle_run, had_offline, poll_taken, drain_pending, clear_pending, finish_run,
}
use deptui.Daemon.Folded.{OneEach, after_entry, is_host, settle_run-after_entry}
use deptui.Daemon.Invariant.{recheck_kept}
use deptui.Daemon.Keeps.{
  Keeps, Keeps-return, Keeps-here, Keeps-if, Keeps-modify, Keeps-save_state, Keeps-bind,
}
use deptui.Daemon.Polled.{Keeps-poll_head}
use deptui.Effects.{Env}

seen_hosts :
    (watch other : String) (rev : String) (st : AgentState)
    → (watch_state (update_watch watch (λ ws. record ws { last_seen = some rev }) st) other).hosts
      ≡ (watch_state st other).hosts
seen_hosts watch other rev st = rw (watch_state-update) (ground (arith, eq_iff watch other))

module _ (other name : String) (x : HostState) where
  -- The host stands so.
  abbrev Stands : Daemon → List (String × RunPlan) → Type 0
  Stands d runs = host_state (watch_state d.state other) name ≡ x

  module _ (env : Env) (clocks : Clocks) where
    Stands-spawn :
        (watch rev trigger : String) (hosts : List PlanHost)
        → Keeps Stands (
            fresh_run_id env >>= λ id.
            spawn_run env watch
              (record { run_id = id; rev = rev; trigger = trigger; hosts = hosts })
            >> save_state)
    unfolding fresh_run_id spawn_run save_state ◌>>=◌
    Stands-spawn watch rev trigger hosts = record { at = λ s h. h }

    Stands-head :
        (watch rev : String) (d : Daemon) (runs : List (String × RunPlan))
        → Stands d runs
        → Stands (record_head env watch rev d) runs
    unfolding record_head
    Stands-head watch rev d runs h =
        ap (λ hosts. host_state (record (watch_state d.state other) { hosts = hosts }) name)
          (seen_hosts watch other rev d.state)
        ∙ h

    abbrev StandsAfter : Unit {0} × System → Type 0
    StandsAfter p = Stands p.1.daemon p.1.runs

    stands_if :
        (b : Bool) (p q : Unit {0} × System)
        → StandsAfter p
        → StandsAfter q
        → StandsAfter (if b then p else q)
    stands_if true p q hp hq = hp
    stands_if false p q hp hq = hq

    Stands-configured :
        (watch trigger : String) (o : Option WatchConfig) (s : System)
        → Stands s.daemon s.runs
        → StandsAfter (elim o [ none ↦ (tt, s) | some w ↦ poll_head env watch trigger w s ])
    Stands-configured watch trigger none s h = h
    Stands-configured watch trigger (some w) s h =
        (Keeps-poll_head Stands env Stands-spawn Stands-head watch trigger w).at s h

    Stands-request : (watch trigger : String) → Keeps Stands (request_poll env watch trigger)
    unfolding request_poll
    Stands-request watch trigger = record {
      at = λ s h. stands_if (is_some s.daemon.running || s.daemon.validating) _ _ h (
          stands_if s.daemon.state.paused _ _ h
            (stands_if _ _ _ h (Stands-configured watch trigger (watch_cfg s.daemon watch) s h)));
    }

    Stands-running :
        (o : Option RunningRun) (t : Task (Unit {0}))
        → Keeps Stands t
        → Keeps Stands (elim o [ some run ↦ return tt | none ↦ t ])
    Stands-running none t h = h
    Stands-running (some run) t h = Keeps-return Stands tt

    Stands-taken : (taken : List (String × String)) → Keeps Stands (poll_taken env clocks taken)
    unfolding poll_taken
    Stands-taken [] = Keeps-return Stands tt
    Stands-taken ((watch, trigger) ∷ rest) =
        Keeps-bind Stands (request_poll env watch trigger) _ (Stands-request watch trigger) λ u.
          Keeps-bind Stands here _ (Keeps-here Stands)
            λ d. Stands-running d.running _ (Stands-taken rest)

    Stands-drain : Keeps Stands (drain_pending env clocks)
    unfolding drain_pending clear_pending
    Stands-drain = Keeps-bind Stands here _ (Keeps-here Stands) λ d.
        Keeps-bind Stands (modify clear_pending) _ (Keeps-modify Stands clear_pending λ d runs h. h)
          λ u. Stands-taken d.pending

    Stands-recheck : (watch : String) → Keeps Stands (schedule_recheck clocks watch)
    unfolding schedule_recheck
    Stands-recheck watch = record {
      at = λ s h. recheck_kept Stands (λ d m runs o. o) clocks watch (watch_cfg s.daemon watch) s h;
    }

    -- What follows once the outcomes are folded in.
    Stands-rest :
        (watch : String) (run : RunRecord)
        → Keeps Stands (
            save_state
            >> (if had_offline run.hosts then schedule_recheck clocks watch else return tt)
            >> drain_pending env clocks)
    unfolding ◌>>=◌ save_state drain_pending
    Stands-rest watch run = Keeps-bind Stands save_state _ (Keeps-save_state Stands) λ u.
        Keeps-bind Stands
          (if had_offline run.hosts then schedule_recheck clocks watch else return tt) _
          (Keeps-if Stands (had_offline run.hosts) _ _ (Stands-recheck watch)
            (Keeps-return Stands tt))
          λ v. Stands-drain

-- After a run with one entry for each of its hosts is finished, the polls that waited made
-- included, each host of its watch stands as its entry leaves it, and hosts without an entry and
-- all other watches' hosts stand as before.
pub finish_run-after_entry :
    (env : Env) (clocks : Clocks) (watch other name : String) (run : RunRecord) (s : System)
    → OneEach run.hosts
    → host_state (watch_state (finish_run env clocks watch run s).1.daemon.state other) name ≡ (
        if watch == other
        then after_entry
            (find_by (is_host name) run.hosts)
            (host_state (watch_state s.daemon.state watch) name)
            run.rev
            (unwrap_or run.finished (env.now s.machine.calls))
        else host_state (watch_state s.daemon.state other) name)
unfolding finish_run now modify ◌>>=◌
finish_run-after_entry env clocks watch other name run s o =
    let time : ℕ = unwrap_or run.finished (env.now s.machine.calls) in
    let settled : System = record s { daemon = settle_run watch run time s.daemon } in
    (Stands-rest other name (host_state (watch_state settled.daemon.state other) name) env clocks
        watch run).at
      settled refl
    ∙ settle_run-after_entry watch other name run time s.daemon o

-- ===== src/Daemon/Polled.antt =====
-- crates/deptui-agent/src/daemon.rs: what a poll of the watched ref keeps, given that the record of the
-- head and the start of a run keep it.
use deptui.Prelude.{String, Bool, Option, none, some, List, [], ◌∷◌}
use deptui.Prelude.Result.{Result, ok, err}
use deptui.Config.{WatchConfig, refspec}
use deptui.State.{WatchState, watch_state}
use deptui.Gitwatch.{ls_remote}
use deptui.Runner.{PlanHost, RunPlan}
use deptui.Daemon.{Daemon, return, act, here, modify, save_state, ◌>>=◌, ◌>>◌}
use deptui.Daemon.Plan.{plan_hosts}
use deptui.Daemon.Poll.{
  spawn_run, fresh_run_id, start_round, record_head, on_head, on_poll, poll_head, moved,
}
use deptui.Daemon.Keeps.{
  Keeps, Keeps-return, Keeps-act, Keeps-here, Keeps-modify, Keeps-bind, keep_rules,
}
use deptui.Effects.{Env}

module _ (J : Daemon → List (String × RunPlan) → Type 0) (env : Env)
    (spawn : (watch rev trigger : String) (hosts : List PlanHost)
      → Keeps J (
          fresh_run_id env >>= λ id.
          spawn_run env watch (record { run_id = id; rev = rev; trigger = trigger; hosts = hosts })
          >> save_state))
    (head : (watch rev : String) (d : Daemon) (runs : List (String × RunPlan))
      → J d runs
      → J (record_head env watch rev d) runs) where
  Keeps-round :
      (watch trigger rev : String) (w : WatchConfig) (changed : Bool) (ws : WatchState)
      (hosts : List PlanHost)
      → Keeps J (start_round env watch trigger rev w changed ws hosts)
  unfolding start_round
  Keeps-round watch trigger rev w changed ws [] = search keep_rules
  Keeps-round watch trigger rev w changed ws (ph ∷ hosts) = spawn watch rev trigger (ph ∷ hosts)

  Keeps-head :
      (watch trigger : String) (w : WatchConfig) (rev : String)
      → Keeps J (on_head env watch trigger w rev)
  unfolding on_head
  Keeps-head watch trigger w rev = Keeps-bind J here _ (Keeps-here J) λ before.
      Keeps-bind J (modify (record_head env watch rev)) _
        (Keeps-modify J (record_head env watch rev) (head watch rev))
        λ u. Keeps-bind J here _ (Keeps-here J) λ after.
          Keeps-round watch trigger rev w (moved (watch_state before.state watch).last_seen rev)
            (watch_state after.state watch) (plan_hosts (watch_state after.state watch) rev w.hosts)

  Keeps-polled :
      (watch trigger : String) (w : WatchConfig) (r : Result (Option String))
      → Keeps J (on_poll env watch trigger w r)
  unfolding on_poll
  Keeps-polled watch trigger w (err e) = Keeps-return J tt
  Keeps-polled watch trigger w (ok none) = Keeps-return J tt
  Keeps-polled watch trigger w (ok (some rev)) = Keeps-head watch trigger w rev

  Keeps-ref :
      (watch trigger : String) (w : WatchConfig) (ref : Option String)
      → Keeps J (elim ref [
        | none ↦ return tt
        | some ref ↦ act (ls_remote env w.repo ref) >>= on_poll env watch trigger w
      ])
  Keeps-ref watch trigger w none = Keeps-return J tt
  Keeps-ref watch trigger w (some ref) =
      Keeps-bind J (act (ls_remote env w.repo ref)) (on_poll env watch trigger w)
        (Keeps-act J (ls_remote env w.repo ref)) (Keeps-polled watch trigger w)

  pub Keeps-poll_head :
      (watch trigger : String) (w : WatchConfig) → Keeps J (poll_head env watch trigger w)
  unfolding poll_head
  Keeps-poll_head watch trigger w = Keeps-ref watch trigger w (refspec w)

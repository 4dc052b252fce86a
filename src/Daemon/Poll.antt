-- ===== src/Daemon/Poll.antt =====
-- crates/deptui-agent/src/daemon.rs: `request_poll` and `spawn_run`.
use deptui.Prelude.{
  ℕ, String, Bool, true, false, ◌||◌, not, Option, none, some, List, [], ◌∷◌, ◌++◌, ◌==◌,
  if◌then◌else◌, is_some, any_by,
}
use deptui.Prelude.Text.{concat, short_rev}
use deptui.Prelude.Result.{Result, ok, err}
use deptui.Config.{WatchConfig, refspec}
use deptui.State.{WatchState, AgentState, watch_state, update_watch, take_run_id}
use deptui.Gitwatch.{ls_remote}
use deptui.Runner.{PlanHost, RunPlan}
use deptui.Daemon.{
  Daemon, Task, return, act, here, modify, announce, save_state, watch_cfg, ◌>>=◌, ◌>>◌,
}
use deptui.Daemon.Plan.{plan_hosts, idle_parts, idle_detail}
use deptui.Effects.{Env}

-- A watch waits at most once.
unfoldable pub enqueue : String → String → List (String × String) → List (String × String)
enqueue watch trigger pending =
    if any_by (λ (p : String × String). p.0 == watch) pending
    then pending
    else pending ++ (watch, trigger) ∷ []

abbrev pub watch_paused : AgentState → String → Bool
watch_paused st name = (watch_state st name).paused

-- Did the head move since the last look?
unfoldable pub moved : Option String → String → Bool
moved none rev = true
moved (some seen) rev = not (seen == rev)

module _ (env : Env) where
  -- One run at a time: the daemon is told which, and the run starts with its cancel channel open.
  unfoldable pub spawn_run : String → RunPlan → Task (Unit {0})
  spawn_run watch plan s = (
    tt,
    record s {
      daemon = record s.daemon {
        running = some (record {
          watch = watch;
          rev = plan.rev;
          trigger = plan.trigger;
          started = env.now s.machine.calls;
          run_id = plan.run_id;
          cancel_sent = false;
        });
      };
      runs = (watch, plan) ∷ s.runs;
    },
  )

  unfoldable pub fresh_run_id : Task ℕ
  unfolding take_run_id
  fresh_run_id s =
      let (state, id) = take_run_id s.daemon.state in
      (id, record s { daemon = record s.daemon { state = state } })

  nothing_to_do : String → String → String → WatchState → WatchConfig → Task (Unit {0})
  unfolding announce
  nothing_to_do watch trigger rev ws w = announce (
      concat (
        "["
        ∷ watch
        ∷ "] "
        ∷ trigger
        ∷ ": "
        ∷ short_rev rev
        ∷ " needs no deploys"
        ∷ idle_detail (idle_parts ws rev w.hosts)
        ∷ []))

  -- A run for the hosts that need the revision, or word that none does.
  unfoldable pub start_round :
      String → String → String → WatchConfig → Bool → WatchState → List PlanHost → Task (Unit {0})
  unfolding nothing_to_do save_state fresh_run_id spawn_run return ◌>>=◌
  start_round watch trigger rev w changed ws [] = do
    if not (trigger == "poll") || changed then nothing_to_do watch trigger rev ws w else return tt
    save_state
  start_round watch trigger rev w changed ws (ph ∷ hosts) = do
    id ← fresh_run_id
    spawn_run watch (record { run_id = id; rev = rev; trigger = trigger; hosts = ph ∷ hosts })
    save_state

  unfoldable pub record_head : String → String → Daemon → Daemon
  unfolding update_watch
  record_head watch rev d = record d {
    state = update_watch watch (λ ws. record ws { last_seen = some rev }) d.state;
  }

  -- The head of the watched ref is `rev`.
  unfoldable pub on_head : String → String → WatchConfig → String → Task (Unit {0})
  unfolding record_head start_round here modify ◌>>=◌
  on_head watch trigger w rev = do
    before ← here
    modify (record_head watch rev)
    after ← here
    let ws = watch_state after.state watch
    start_round watch trigger rev w (moved (watch_state before.state watch).last_seen rev) ws
        (plan_hosts ws rev w.hosts)

  -- A poll that failed, or that found no ref, changes nothing.
  unfoldable pub on_poll : String → String → WatchConfig → Result (Option String) → Task (Unit {0})
  unfolding on_head return
  on_poll watch trigger w (err e) = return tt
  on_poll watch trigger w (ok none) = return tt
  on_poll watch trigger w (ok (some rev)) = on_head watch trigger w rev

  -- `refspec` is `none` where `validate` would have refused the watch.
  unfoldable pub poll_head : String → String → WatchConfig → Task (Unit {0})
  unfolding on_poll act return ◌>>=◌
  poll_head watch trigger w = elim (refspec w) [
    | none ↦ return tt
    | some ref ↦ act (ls_remote env w.repo ref) >>= on_poll watch trigger w
  ]

  unfoldable pub request_poll : String → String → Task (Unit {0})
  unfolding enqueue poll_head watch_cfg return
  request_poll watch trigger s =
      if is_some s.daemon.running || s.daemon.validating
      then (
        tt,
        record s { daemon = record s.daemon { pending = enqueue watch trigger s.daemon.pending } },
      )
      else if s.daemon.state.paused
      then (tt, s)
      else if watch_paused s.daemon.state watch
      then (tt, s)
      else elim (watch_cfg s.daemon watch) [ none ↦ (tt, s) | some w ↦ poll_head watch trigger w s ]

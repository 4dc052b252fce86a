-- ===== src/Runner/Execute.antt =====
-- crates/deptui-agent/src/runner.rs: `execute`, one run over all hosts of its plan.
use deptui.Prelude.{
  ℕ, String, Bool, true, false, ◌||◌, Option, none, some, List, [], ◌∷◌, length, if◌then◌else◌,
}
use deptui.Prelude.Text.{concat, decimal, short_rev}
use deptui.Prelude.Result.{Result, ok, err, with_context}
use deptui.Config.{NotifyConfig, WatchConfig}
use deptui.Flake.{Node}
use deptui.Flake.Discover.{discover}
use deptui.Gitwatch.Checkout.{ensure_checkout}
use deptui.Notify.Dispatch.{new_event, dispatch}
use deptui.State.{HostRun, RunRecord}
use deptui.Wire.{OfflineKind, down, kind_outcome}
use deptui.Runner.{
  PlanHost, RunPlan, DeployOutcome, deployed, offline, cancelled, adopted, held, label, say,
  summarize_outcomes,
}
use deptui.Runner.Push.{deploy_host}
use deptui.Effects.{Env, Act, pure, attempt, look, map_result, ◌>>=◌, ◌>>◌}

unfoldable pub host_run : String → String → Option String → HostRun
host_run host outcome message = record {
  host = host;
  outcome = outcome;
  message = message;
  target = none;
  toplevels = [];
}

-- The captured log is that of this run alone.
unfoldable pub clear_log : Act (Unit {0})
clear_log m = (ok tt, record m { log = [] })

unfoldable pub captured_log : Act (List String)
captured_log m = (ok m.log, m)

abbrev pub unstarted : String
unstarted = "run cancelled before this host started"

module _ (env : Env) (watch : WatchConfig) (notify : NotifyConfig) (rev : String) where
  tagged : List String → String
  tagged parts = concat ("[" ∷ watch.name ∷ "] " ∷ parts)

  unfoldable pub notify_host : String → String → String → Act (Unit {0})
  unfolding ◌>>=◌
  notify_host kind host message = do
    event ← new_event env kind watch.name (some host) rev message
    dispatch env notify event

  -- A setup that failed fails every host of the plan.
  unfoldable pub fail_all : String → List PlanHost → Act (List HostRun)
  unfolding host_run notify_host ◌>>=◌
  fail_all message [] = pure []
  fail_all message (ph ∷ rest) = do
    notify_host "failure" ph.name message
    runs ← fail_all message rest
    pure (host_run ph.name "failed" (some message) ∷ runs)

  pending_text : String → String → String → OfflineKind → String
  pending_text host target message down =
      tagged (
        host ∷ ": offline (" ∷ target ∷ ") — " ∷ message ∷ "; update pending until it answers" ∷ [])
  pending_text host target message kind = tagged (
      host
      ∷ ": "
      ∷ label kind
      ∷ " ("
      ∷ target
      ∷ ") — "
      ∷ message
      ∷ "; update pending until the agent can log in"
      ∷ [])

  -- A host that answered and refused is a human's problem, and notifies.
  unfoldable pub pending_notice : String → String → String → OfflineKind → Act (Unit {0})
  pending_notice host target message down = pure tt
  pending_notice host target message kind =
      notify_host "unreachable" host (concat (label kind ∷ " (" ∷ target ∷ "): " ∷ message ∷ []))

  -- What a host's outcome is recorded as, with its log line and its notification.
  unfoldable pub settle : String → Result DeployOutcome → Act HostRun
  unfolding host_run notify_host pending_text pending_notice tagged kind_outcome ◌>>=◌
  settle host (ok (adopted toplevels)) = do
    say (tagged (host ∷ ": already running " ∷ short_rev rev ∷ " — adopted without deploying" ∷ []))
    pure (record {
      host = host;
      outcome = "adopted";
      message = none;
      target = none;
      toplevels = toplevels;
    })
  settle host (ok (held message)) = do
    say (
        tagged (
          host ∷ ": HELD — " ∷ message ∷ " (deptui-agent approve " ∷ host
          ∷ " lets the next round deploy it)" ∷ []))
    notify_host "held" host message
    pure (host_run host "held" (some message))
  settle host (ok cancelled) = do
    say (tagged (host ∷ ": cancelled by user" ∷ []))
    pure (host_run host "cancelled" (some "cancelled by user"))
  settle host (ok (offline target message kind)) = do
    say (pending_text host target message kind)
    pending_notice host target message kind
    pure (record {
      host = host;
      outcome = kind_outcome kind;
      message = some message;
      target = some target;
      toplevels = [];
    })
  settle host (ok (deployed toplevels)) = do
    say (tagged (host ∷ ": deployed " ∷ short_rev rev ∷ []))
    notify_host "success" host (concat (host ∷ " deployed " ∷ short_rev rev ∷ []))
    pure (record {
      host = host;
      outcome = "ok";
      message = none;
      target = none;
      toplevels = toplevels;
    })
  settle host (err e) = do
    say (tagged (host ∷ ": FAILED — " ∷ e ∷ []))
    notify_host "failure" host e
    pure (host_run host "failed" (some e))

  unfoldable pub ends_run : Result DeployOutcome → Bool
  ends_run (ok cancelled) = true
  ends_run _ = false

  -- One round of the loop: the host's record, and whether the run is cancelled from here on.
  unfoldable pub run_host : String → List Node → PlanHost → Bool → Act (HostRun × Bool)
  unfolding settle ends_run host_run ◌>>=◌ attempt look
  run_host flake nodes ph stopped = do
    flag ← look env.cancel_flag
    if stopped || flag
        then pure (host_run ph.name "cancelled" (some unstarted), stopped)
        else (attempt (deploy_host env watch flake nodes ph rev notify) >>= λ r.
            settle ph.name r >>= λ run. pure (run, ends_run r))

  unfoldable pub run_hosts : String → List Node → List PlanHost → Bool → Act (List HostRun)
  unfolding run_host ◌>>=◌
  run_hosts flake nodes [] stopped = pure []
  run_hosts flake nodes (ph ∷ rest) stopped = do
    (run, stopped') ← run_host flake nodes ph stopped
    runs ← run_hosts flake nodes rest stopped'
    pure (run ∷ runs)

  -- Checkout and discovery, once for the run.
  unfoldable pub setup : String → Act (String × List Node)
  unfolding ◌>>=◌ map_result
  setup state_dir = do
    flake ← ensure_checkout env state_dir watch rev
    nodes ←
        map_result (with_context (concat ("discovering deploy.nodes in " ∷ flake ∷ [])))
          (discover env flake)
    pure (flake, nodes)

  -- The hosts' records, and whether the setup came through.
  unfoldable pub run_plan : List PlanHost → Result (String × List Node) → Act (List HostRun × Bool)
  unfolding fail_all run_hosts tagged ◌>>=◌
  run_plan hosts (err e) = do
    let message = concat ("run setup failed: " ∷ e ∷ [])
    say (tagged (message ∷ []))
    runs ← fail_all message hosts
    pure (runs, false)
  run_plan hosts (ok (flake, nodes)) = do
    runs ← run_hosts flake nodes hosts false
    pure (runs, true)

  unfoldable pub finish_line : ℕ → List HostRun → Bool → Act (Unit {0})
  unfolding tagged
  finish_line id runs false = pure tt
  finish_line id runs true =
      say (tagged ("run #" ∷ decimal id ∷ " finished: " ∷ summarize_outcomes runs ∷ []))

abbrev seam : String
seam = "━━━━━━━━━━━━━━━━━━━━━━━━━━━━━━"

-- The separator and the run's first line.
unfoldable pub open_run : WatchConfig → RunPlan → Act (Unit {0})
unfolding say ◌>>=◌
open_run watch plan = do
  say (concat ("[" ∷ watch.name ∷ "] " ∷ seam ∷ []))
  say (
      concat (
        "["
        ∷ watch.name
        ∷ "] run #"
        ∷ decimal plan.run_id
        ∷ " ("
        ∷ plan.trigger
        ∷ "): deploying "
        ∷ short_rev plan.rev
        ∷ " to "
        ∷ decimal (length plan.hosts)
        ∷ " host(s)"
        ∷ []))

-- The record of a run that its hosts' records are in.
unfoldable pub close_run :
    Env → WatchConfig → NotifyConfig → RunPlan → ℕ → List HostRun × Bool → Act RunRecord
unfolding captured_log finish_line look ◌>>=◌
close_run env watch notify plan started hosts = do
  finished ← look env.now
  finish_line env watch notify plan.rev plan.run_id hosts.0 hosts.1
  log ← captured_log
  pure (record {
    id = plan.run_id;
    rev = plan.rev;
    trigger = plan.trigger;
    started = started;
    finished = some finished;
    hosts = hosts.0;
    log = log;
  })

unfoldable pub execute : Env → String → WatchConfig → NotifyConfig → RunPlan → Act RunRecord
unfolding clear_log open_run setup run_plan close_run attempt look ◌>>=◌
execute env state_dir watch notify plan = do
  clear_log
  started ← look env.now
  open_run watch plan
  r ← attempt (setup env watch notify plan.rev state_dir)
  hosts ← run_plan env watch notify plan.rev plan.hosts r
  close_run env watch notify plan started hosts

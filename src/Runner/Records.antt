-- ===== src/Runner/Records.antt =====
-- crates/deptui-agent/src/runner.rs: the record of a run, and what becomes of the hosts of a run that was
-- cancelled.
use deptui.Prelude.{
  ℕ, String, ◌≡◌, refl, Bool, true, false, ◌||◌, some, List, [], ◌∷◌, map, if◌then◌else◌, is_some,
  All,
}
use deptui.Prelude.Result.{Result, ok, err}
use deptui.Config.{NotifyConfig, WatchConfig}
use deptui.Flake.{Node}
use deptui.State.{HostRun, RunRecord}
use deptui.State.Outcome.{Outcome, outcome_name}
use deptui.Runner.{PlanHost, RunPlan, DeployOutcome, cancelled, say}
use deptui.Runner.Push.{deploy_host}
use deptui.Runner.Execute.{
  host_run, unstarted, notify_host, fail_all, settle, ends_run, run_host, run_hosts, setup,
  run_plan, finish_line, clear_log, captured_log, open_run, close_run, execute,
}
use deptui.Runner.Endings.{Settled, outcome_of, Ends-say, Ends-notify_host, Ends-settle}
use deptui.Effects.{Env, Machine, pure, attempt, look, ◌>>=◌}
use deptui.Effects.Quiet.{started}
use deptui.Effects.Ends.{
  Ended, Ends, Any, Ends-pure, Ends-done, Ends-look, Ends-attempt, Ends-bind, Ends-then, ends_rules,
}

-- One of the outcomes that a run records.
pub record Known (run : HostRun) : Type 0 where
  pub kind : Outcome
  pub named : run.outcome ≡ outcome_name kind

pub record Covers (hosts : List PlanHost) (runs : List HostRun) : Type 0 where
  pub names : map (λ run. run.host) runs ≡ map (λ ph. ph.name) hosts
  pub known : All Known runs

Covers-cons :
    (ph : PlanHost) (hosts : List PlanHost) (run : HostRun) (runs : List HostRun)
    → run.host ≡ ph.name
    → Known run
    → Covers hosts runs
    → Covers (ph ∷ hosts) (run ∷ runs)
Covers-cons ph hosts run runs e k c = record { names = cc; known = (k, c.known) }

Covers-nil : Covers [] []
Covers-nil = record { names = refl; known = tt }

Known-of_Settled :
    (host : String) (r : Result DeployOutcome) (run : HostRun) → Settled host r run → Known run
Known-of_Settled host r run h = record { kind = outcome_of r; named = h.outcome }

abbrev OfHost : PlanHost → HostRun → Type 0
OfHost ph run = (run.host ≡ ph.name) × Known run

module _ (env : Env) (watch : WatchConfig) (notify : NotifyConfig) (rev : String) where
  Ends-fail_all :
      (message : String) (hosts : List PlanHost)
      → Ends (Covers hosts) (fail_all env watch notify rev message hosts)
  unfolding fail_all outcome_name
  Ends-fail_all message [] = Ends-pure (Covers []) [] Covers-nil
  Ends-fail_all message (ph ∷ rest) =
      Ends-then _ (notify_host env watch notify rev "failure" ph.name message) _
        (Ends-notify_host env watch notify rev "failure" ph.name message)
        λ u.
          Ends-bind (Covers rest) _ (fail_all env watch notify rev message rest) _
            (Ends-fail_all message rest)
            λ runs c.
              Ends-pure _ _
                (Covers-cons ph rest _ runs refl (record { kind = Outcome.failed; named = refl }) c)

  Ends-started :
      (ph : PlanHost) (flake : String) (nodes : List Node) (stopped flag : Bool)
      → Ends
          (λ (p : HostRun × Bool). OfHost ph p.0)
          (if stopped || flag
            then pure (host_run ph.name "cancelled" (some unstarted), stopped)
            else (attempt (deploy_host env watch flake nodes ph rev notify) >>= λ r.
                settle env watch notify rev ph.name r >>= λ run.
                pure (run, ends_run env watch notify rev r)))
  unfolding outcome_name host_run
  Ends-started ph flake nodes true flag =
      Ends-pure _ _ (refl, record { kind = Outcome.cancelled; named = refl })
  Ends-started ph flake nodes false true =
      Ends-pure _ _ (refl, record { kind = Outcome.cancelled; named = refl })
  Ends-started ph flake nodes false false =
      Ends-then _ (attempt (deploy_host env watch flake nodes ph rev notify)) _
        (Ends-attempt (deploy_host env watch flake nodes ph rev notify))
        λ r.
          Ends-bind (Settled ph.name r) _ (settle env watch notify rev ph.name r) _
            (Ends-settle env watch notify rev ph.name r)
            λ run h. Ends-pure _ _ (h.names, Known-of_Settled ph.name r run h)

  Ends-run_host :
      (flake : String) (nodes : List Node) (ph : PlanHost) (stopped : Bool)
      → Ends
          (λ (p : HostRun × Bool). OfHost ph p.0)
          (run_host env watch notify rev flake nodes ph stopped)
  unfolding run_host
  Ends-run_host flake nodes ph stopped =
      Ends-then _ (look env.cancel_flag) _ (Ends-look env.cancel_flag)
        λ flag. Ends-started ph flake nodes stopped flag

  Ends-run_hosts :
      (flake : String) (nodes : List Node) (hosts : List PlanHost) (stopped : Bool)
      → Ends (Covers hosts) (run_hosts env watch notify rev flake nodes hosts stopped)
  unfolding run_hosts
  Ends-run_hosts flake nodes [] stopped = Ends-pure (Covers []) [] Covers-nil
  Ends-run_hosts flake nodes (ph ∷ rest) stopped =
      Ends-bind _ _ (run_host env watch notify rev flake nodes ph stopped) _
        (Ends-run_host flake nodes ph stopped)
        λ p h.
          Ends-bind (Covers rest) _ (run_hosts env watch notify rev flake nodes rest p.1) _
            (Ends-run_hosts flake nodes rest p.1)
            λ runs c. Ends-pure _ _ (Covers-cons ph rest p.0 runs h.0 h.1 c)

  Ends-run_plan :
      (hosts : List PlanHost) (r : Result (String × List Node))
      → Ends (λ (p : List HostRun × Bool). Covers hosts p.0) (run_plan env watch notify rev hosts r)
  unfolding run_plan
  Ends-run_plan hosts (err e) = Ends-then _ (say _) _ (Ends-say _) λ u.
      Ends-bind (Covers hosts) _ (fail_all env watch notify rev _ hosts) _ (Ends-fail_all _ hosts)
        λ runs c. Ends-pure _ _ c
  Ends-run_plan hosts (ok (flake, nodes)) =
      Ends-bind (Covers hosts) _ (run_hosts env watch notify rev flake nodes hosts false) _
        (Ends-run_hosts flake nodes hosts false) λ runs c. Ends-pure _ _ c

  Ends-finish_line :
      (id : ℕ) (runs : List HostRun) (through : Bool)
      → Ends Any (finish_line env watch notify rev id runs through)
  unfolding finish_line
  Ends-finish_line id runs true = Ends-say _
  Ends-finish_line id runs false = Ends-done tt

Ends-clear_log : Ends Any clear_log
unfolding clear_log
Ends-clear_log = record { at = λ s. tt }

Ends-captured_log : Ends Any captured_log
unfolding captured_log
Ends-captured_log = record { at = λ s. tt }

-- What a run's record owes to its plan.
pub record Account (plan : RunPlan) (run : RunRecord) : Type 0 where
  pub id : run.id ≡ plan.run_id
  pub rev : run.rev ≡ plan.rev
  pub trigger : run.trigger ≡ plan.trigger
  pub finished : is_some run.finished ≡ true
  pub hosts : Covers plan.hosts run.hosts

Ends-open_run : (watch : WatchConfig) (plan : RunPlan) → Ends Any (open_run watch plan)
unfolding open_run
Ends-open_run watch plan = search (ends_rules, Ends-say)

Ends-close_run :
    (env : Env) (watch : WatchConfig) (notify : NotifyConfig) (plan : RunPlan) (started : ℕ)
    (hosts : List HostRun × Bool)
    → Covers plan.hosts hosts.0
    → Ends (Account plan) (close_run env watch notify plan started hosts)
unfolding close_run
Ends-close_run env watch notify plan started hosts c =
    Ends-then _ (look env.now) _ (Ends-look env.now) λ finished.
      Ends-then _ (finish_line env watch notify plan.rev plan.run_id hosts.0 hosts.1) _
        (Ends-finish_line env watch notify plan.rev plan.run_id hosts.0 hosts.1)
        λ x. Ends-then _ captured_log _ Ends-captured_log λ log.
          Ends-pure (Account plan)
            (record {
              id = plan.run_id;
              rev = plan.rev;
              trigger = plan.trigger;
              started = started;
              finished = some finished;
              hosts = hosts.0;
              log = log;
            })
            (record { id = refl; rev = refl; trigger = refl; finished = refl; hosts = c })

Ends-execute :
    (env : Env) (state_dir : String) (watch : WatchConfig) (notify : NotifyConfig) (plan : RunPlan)
    → Ends (Account plan) (execute env state_dir watch notify plan)
unfolding execute
Ends-execute env state_dir watch notify plan = Ends-then _ clear_log _ Ends-clear_log λ u.
    Ends-then _ (look env.now) _ (Ends-look env.now) λ started.
      Ends-then _ (open_run watch plan) _ (Ends-open_run watch plan) λ v.
        Ends-then _ (attempt (setup env watch notify plan.rev state_dir)) _ (Ends-attempt _) λ r.
          Ends-bind _ _ (run_plan env watch notify plan.rev plan.hosts r) _
            (Ends-run_plan env watch notify plan.rev plan.hosts r)
            (Ends-close_run env watch notify plan started)

-- Whatever the environment answers, each of its calls being one that returns, the record of a run
-- bears the plan's number, revision and trigger, is finished, and has exactly one entry for each
-- planned host, in the plan's order, with one of the known outcomes.
pub execute-Account :
    (env : Env) (state_dir : String) (watch : WatchConfig) (notify : NotifyConfig) (plan : RunPlan)
    (s : Machine)
    → Ended (Account plan) (execute env state_dir watch notify plan s).0
execute-Account env state_dir watch notify plan = (Ends-execute env state_dir watch notify plan).at

-- How a host is recorded that the run was cancelled before.
abbrev pub left_out : PlanHost → HostRun
left_out ph = host_run ph.name "cancelled" (some unstarted)

module _ (env : Env) (watch : WatchConfig) (notify : NotifyConfig) (rev : String) where
  run_hosts-stopped :
      (flake : String) (nodes : List Node) (hosts : List PlanHost) (s : Machine)
      → run_hosts env watch notify rev flake nodes hosts true s ≡ (ok (map left_out hosts), s)
  unfolding run_hosts run_host
  run_hosts-stopped flake nodes [] s = refl
  run_hosts-stopped flake nodes (ph ∷ rest) s = rw (run_hosts-stopped flake nodes rest s) refl

  -- When the user cancels the deploy of a host that the run had not been cancelled before, that
  -- host and all later ones are recorded as cancelled, and after the cancelled deploy the run
  -- starts no other.
  pub run_hosts-cancelled :
      (flake : String) (nodes : List Node) (ph : PlanHost) (rest : List PlanHost) (s t : Machine)
      → env.cancel_flag s.calls ≡ false
      → deploy_host env watch flake nodes ph rev notify s ≡ (ok cancelled, t)
      → ((run_hosts env watch notify rev flake nodes (ph ∷ rest) false s).0
          ≡ ok (host_run ph.name "cancelled" (some "cancelled by user") ∷ map left_out rest))
        × (started (run_hosts env watch notify rev flake nodes (ph ∷ rest) false s).1.calls
            ≡ started t.calls)
  unfolding run_hosts run_host settle say started
  run_hosts-cancelled flake nodes ph rest s t hf hd =
      rw (hf, hd, run_hosts-stopped flake nodes rest _) (refl, refl)

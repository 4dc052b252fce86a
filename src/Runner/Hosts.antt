-- ===== src/Runner/Hosts.antt =====
-- crates/deptui-agent/src/runner.rs: `deploy_host` as a whole: which of its endings mean that nothing was
-- deployed.
use deptui.Prelude.{String, ◌≡◌, true, Option, none, some, List, ◌==◌, find_by}
use deptui.Prelude.Map.{get}
use deptui.Prelude.Result.{ok_or}
use deptui.Config.{NotifyConfig, HostConfig, WatchConfig}
use deptui.Flake.{Node}
use deptui.Runner.{PlanHost, DeployOutcome}
use deptui.Runner.Push.{probe_first, reached, deploy_host}
use deptui.Runner.Quiet.{Quiet-check_reachable}
use deptui.Runner.Sparing.{spared, Spares, Spares-Quiet, Spares-bind, Spares-reached}
use deptui.Effects.{Env, Machine, pure, lift}
use deptui.Effects.Quiet.{started, Quiet, Quiet-pure, Quiet-lift, quiet_rules}

module _ (env : Env) (watch : WatchConfig) (flake : String) where
  pub Quiet-probe_first :
      (hc : HostConfig) (node : Node) → Quiet (probe_first env watch flake hc node)
  unfolding probe_first
  Quiet-probe_first hc node = search (quiet_rules, Quiet-check_reachable)

  Spares-missed :
      (nodes : List Node) (ph : PlanHost) (rev : String) (notify : NotifyConfig) (hc : HostConfig)
      (node : Node) (miss : Option DeployOutcome)
      → Spares (elim miss [
        | some outcome ↦ pure outcome
        | none ↦ reached env watch flake notify rev ph hc node
      ])
  Spares-missed nodes ph rev notify hc node none =
      Spares-reached env watch flake notify rev ph hc node
  Spares-missed nodes ph rev notify hc node (some outcome) = Spares-Quiet _ (Quiet-pure outcome)

  Spares-deploy_host :
      (nodes : List Node) (ph : PlanHost) (rev : String) (notify : NotifyConfig)
      → Spares (deploy_host env watch flake nodes ph rev notify)
  unfolding deploy_host
  Spares-deploy_host nodes ph rev notify =
      Spares-bind (lift (ok_or (get ph.name watch.hosts) _)) _ (Quiet-lift _) λ hc.
        Spares-bind (lift (ok_or (find_by (λ n. n.name == ph.name) nodes) _)) _ (Quiet-lift _)
          λ node.
            Spares-bind (probe_first env watch flake hc node) _ (Quiet-probe_first hc node)
              (Spares-missed nodes ph rev notify hc node)

  -- If a host's round ends held, adopted or pending, then no deploy was started on it, whatever the
  -- world answered.
  pub deploy_host-spared :
      (nodes : List Node) (ph : PlanHost) (rev : String) (notify : NotifyConfig) (s : Machine)
      → spared (deploy_host env watch flake nodes ph rev notify s).0 ≡ true
      → started (deploy_host env watch flake nodes ph rev notify s).1.calls ≡ started s.calls
  deploy_host-spared nodes ph rev notify = (Spares-deploy_host nodes ph rev notify).at

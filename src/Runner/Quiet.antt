-- ===== src/Runner/Quiet.antt =====
-- crates/deptui-agent/src/runner.rs: what a run does besides deploying starts no deploy: git, ssh, the
-- probes, the notifications and the log.
use deptui.Prelude.{String, refl, Option, none, some, List, [], ◌∷◌, ◌==◌, if◌then◌else◌}
use deptui.Prelude.Map.{Map}
use deptui.Prelude.Result.{Result, ok, err}
use deptui.Ssh.{SshOverride}
use deptui.Config.{NotifyConfig, webhook_kind, wants_event}
use deptui.Flake.{Node}
use deptui.Deploy.{AskpassEnv}
use deptui.Notify.{Event}
use deptui.Notify.Dispatch.{new_event, hook_for, read_token, post_to, webhook_for, dispatch}
use deptui.Gitwatch.{git, is_ancestor}
use deptui.Remote.{ssh_capture, read_remote_profile_path, read_remote_configuration_rev}
use deptui.Remote.Check.{local_profile_path, resolve_local_toplevel_quiet, check_profile_up_to_date}
use deptui.Runner.{DeployOutcome, adopted, held, askpass_disabled, say, check_reachable}
use deptui.Runner.Guard.{
  judge_profile, whole_baseline, or_hold, compare_path, first_encounter, in_history, drift_at,
  check_drift,
}
use deptui.Effects.{Env, Act, attempt, pure, tell, hooked, posted, look}
use deptui.Effects.Quiet.{
  Quiet, Quiet-pure, Quiet-tell, Quiet-attempt, Quiet-if, Quiet-bind, quiet_rules,
}

pub Quiet-say : (text : String) → Quiet (say text)
unfolding say deptui.Effects.Quiet.started
Quiet-say text = record { at = λ s. refl }

module _ (env : Env) where
  pub Quiet-new_event :
      (kind watch : String) (host : Option String) (rev message : String)
      → Quiet (new_event env kind watch host rev message)
  unfolding new_event
  Quiet-new_event kind watch host rev message = search quiet_rules

  Quiet-git : (dir : Option String) (args : List String) → Quiet (git env dir args)
  unfolding git
  Quiet-git dir args = search quiet_rules

  Quiet-is_ancestor : (dir a d : String) → Quiet (is_ancestor env dir a d)
  unfolding is_ancestor
  Quiet-is_ancestor dir a d = search (quiet_rules, Quiet-git)

  Quiet-ssh_capture :
      (target command : String) (o : SshOverride) (a : AskpassEnv)
      → Quiet (ssh_capture env target command o a)
  unfolding ssh_capture
  Quiet-ssh_capture target command o a = search quiet_rules

  Quiet-read_path :
      (node : Node) (profile : String) (o : SshOverride) (a : AskpassEnv)
      → Quiet (read_remote_profile_path env node profile o a)
  unfolding read_remote_profile_path
  Quiet-read_path node profile o a = search (quiet_rules, Quiet-ssh_capture)

  Quiet-read_rev :
      (node : Node) (o : SshOverride) (a : AskpassEnv)
      → Quiet (read_remote_configuration_rev env node o a)
  unfolding read_remote_configuration_rev
  Quiet-read_rev node o a = search (quiet_rules, Quiet-ssh_capture)

  Quiet-local_path :
      (flake node profile : String) → Quiet (local_profile_path env flake node profile)
  unfolding local_profile_path
  Quiet-local_path flake node profile = search quiet_rules

  Quiet-resolve :
      (wrapper remote : String) → Quiet (resolve_local_toplevel_quiet env wrapper remote)
  unfolding resolve_local_toplevel_quiet
  Quiet-resolve wrapper remote = search quiet_rules depth 9

  Quiet-check_profile :
      (flake : String) (node : Node) (profile : String) (o : SshOverride) (a : AskpassEnv)
      → Quiet (check_profile_up_to_date env flake node profile o a)
  unfolding check_profile_up_to_date
  Quiet-check_profile flake node profile o a =
      search (quiet_rules, Quiet-local_path, Quiet-ssh_capture, Quiet-resolve) depth 12

  pub Quiet-check_reachable :
      (target : String) (o : SshOverride) → Quiet (check_reachable env target o)
  unfolding check_reachable
  Quiet-check_reachable target o = search quiet_rules

  Quiet-hook_for : (cfg : NotifyConfig) (event : Event) → Quiet (hook_for env cfg event)
  unfolding hook_for
  Quiet-hook_for cfg event =
      elim cfg.on_failure
        as (λ o. Quiet (elim o [ none ↦ pure tt | some cmd ↦ tell (hooked cmd event) ])) [
          | none ↦ Quiet-pure tt
          | some cmd ↦ Quiet-tell (hooked cmd event) refl
        ]

  Quiet-read_token : (o : Option String) → Quiet (read_token env o)
  unfolding read_token
  Quiet-read_token none = search quiet_rules
  Quiet-read_token (some path) = search quiet_rules

  Quiet-post_to :
      (cfg : NotifyConfig) (event : Event) (url : String) → Quiet (post_to env cfg event url)
  unfolding post_to
  Quiet-post_to cfg event url =
      Quiet-bind (read_token env cfg.token_file)
        (λ token. tell (posted url (webhook_kind cfg) token event))
        (Quiet-read_token cfg.token_file)
        (λ token. Quiet-tell (posted url (webhook_kind cfg) token event) refl)

  Quiet-webhook_for : (cfg : NotifyConfig) (event : Event) → Quiet (webhook_for env cfg event)
  unfolding webhook_for
  Quiet-webhook_for cfg event =
      elim cfg.url
        as (λ o. Quiet (elim o [
          | none ↦ pure tt
          | some url ↦ if wants_event cfg event.kind then post_to env cfg event url else pure tt
        ])) [ none ↦ Quiet-pure tt | some url ↦ search (quiet_rules, Quiet-post_to) ]

  pub Quiet-dispatch : (cfg : NotifyConfig) (event : Event) → Quiet (dispatch env cfg event)
  unfolding dispatch
  Quiet-dispatch cfg event = search (quiet_rules, Quiet-hook_for, Quiet-webhook_for)

  module _ (flake : String) (node : Node) (o : SshOverride) where
    Quiet-or_hold :
        (r : Result (Map String)) (next : Map String → Act DeployOutcome)
        → ((t : Map String) → Quiet (next t))
        → Quiet (or_hold r next)
    unfolding or_hold
    Quiet-or_hold (err e) next q = Quiet-pure (held e)
    Quiet-or_hold (ok t) next q = q t

    pub Quiet-first_encounter :
        (profiles rest : List String) (t : Map String)
        → Quiet (first_encounter env flake node o profiles rest t)
    unfolding first_encounter
    Quiet-first_encounter profiles [] t = Quiet-pure (adopted (whole_baseline t profiles))
    Quiet-first_encounter profiles (p ∷ rest) t =
        Quiet-bind (attempt (check_profile_up_to_date env flake node p o askpass_disabled))
          (λ r. or_hold (judge_profile p t r) (first_encounter env flake node o profiles rest))
          (Quiet-attempt _ (Quiet-check_profile flake node p o askpass_disabled))
          (λ r. Quiet-or_hold (judge_profile p t r) _ (Quiet-first_encounter profiles rest))

    Quiet-in_history :
        (host rev : String) (r : Result (Option String))
        → Quiet (in_history env flake node o host rev r)
    unfolding in_history
    Quiet-in_history host rev (err e) = search quiet_rules
    Quiet-in_history host rev (ok none) = search quiet_rules
    Quiet-in_history host rev (ok (some running)) =
        search (quiet_rules, Quiet-is_ancestor, Quiet-say)

    Quiet-drift_at :
        (host rev profile current recorded : String)
        → Quiet (drift_at env flake node o host rev profile current recorded)
    unfolding drift_at
    Quiet-drift_at host rev profile current recorded =
        search (quiet_rules, Quiet-read_rev, Quiet-in_history) depth 8

    Quiet-compare_path :
        (profile recorded : String) (r : Result (Option String)) (same : Act (Option String))
        (differs : String → Act (Option String))
        → Quiet same
        → ((current : String) → Quiet (differs current))
        → Quiet (compare_path profile recorded r same differs)
    unfolding compare_path
    Quiet-compare_path profile recorded (err e) same differs qs qd = search quiet_rules
    Quiet-compare_path profile recorded (ok none) same differs qs qd = search quiet_rules
    Quiet-compare_path profile recorded (ok (some current)) same differs qs qd =
        Quiet-if (current == recorded) same (differs current) qs (qd current)

    pub Quiet-check_drift :
        (host rev : String) (recorded : Map String)
        → Quiet (check_drift env flake node o host rev recorded)
    unfolding check_drift
    Quiet-check_drift host rev [] = Quiet-pure none
    Quiet-check_drift host rev ((profile, path) ∷ rest) =
        Quiet-bind (attempt (read_remote_profile_path env node profile o askpass_disabled))
          (λ r.
            compare_path profile path r (check_drift env flake node o host rev rest)
              λ current. drift_at env flake node o host rev profile current path)
          (Quiet-attempt _ (Quiet-read_path node profile o askpass_disabled))
          (λ r.
            Quiet-compare_path profile path r _ _ (Quiet-check_drift host rev rest)
              (λ current. Quiet-drift_at host rev profile current path))

-- ===== src/Runner/Push.antt =====
-- crates/deptui-agent/src/runner.rs: `deploy_host`, one host of a run.
use deptui.Prelude.{
  zero, String, Bool, true, ◌&&◌, not, Option, none, some, List, [], ◌∷◌, map, ◌==◌, if◌then◌else◌,
  is_some, find_by, filter_by, and_then,
}
use deptui.Prelude.Text.{ℤ, pos, concat, short_rev, show_int}
use deptui.Prelude.Map.{Map, get, first_key}
use deptui.Prelude.Result.{ok_or, result_or}
use deptui.Config.{
  NotifyConfig, HostConfig, WatchConfig, profile_sel, deploy_mode, host_toggles, bootstrap_deploys,
  catch_up, drift_guard, ssh_override,
}
use deptui.Deploy.{
  ProfileSel, all, ProfileInfo, DeployRequest, LogLine, stdout, stderr, sudo_prompt, exit, error,
  selects, Mode,
}
use deptui.Flake.{Node, ordered_profiles}
use deptui.Notify.Dispatch.{new_event, dispatch}
use deptui.Remote.{build_ssh_target}
use deptui.Runner.{
  PlanHost, DeployOutcome, deployed, offline, cancelled, held, is_self_target, askpass_disabled,
  say, check_reachable,
}
use deptui.Runner.Guard.{first_encounter, check_drift, read_back}
use deptui.Effects.{
  Env, Act, DeployEvent, line, cancel_changed, started_deploy, killed_deploy, pure, fail, lift,
  look, tell, ◌>>=◌, ◌>>◌,
}

-- What the loop over a deploy's events has seen.
pub record Drain : Type 0 where
  pub exit_code : Option ℤ
  pub spawn_error : Option String
  pub user_cancelled : Bool

-- The profiles that the host's configuration manages.
unfoldable pub managed_profiles : HostConfig → Node → List String
unfolding profile_sel selects
managed_profiles hc node =
    filter_by (selects (result_or (profile_sel hc) all)) (ordered_profiles node)

profile_info : Node → String → ProfileInfo
profile_info node name = record {
  name = name;
  user = and_then (get name node.profiles) λ p. p.user;
}

unfoldable pub deploy_request :
    String → String → HostConfig → Node → ProfileSel → Mode → DeployRequest
unfolding profile_info host_toggles ssh_override
deploy_request flake host hc node profile mode = record {
  flake = flake;
  node = host;
  profile = profile;
  mode = mode;
  toggles = host_toggles hc;
  ssh_override = ssh_override hc;
  askpass = askpass_disabled;
  profiles = map (profile_info node) (ordered_profiles node);
  extra_build_args = hc.extra_build_args;
  seed = none;
  node_info = some node;
}

unfoldable pub tagged : String → String → String
tagged host text = concat ("[" ∷ host ∷ "] " ∷ text ∷ [])

-- One line of the deploy. A remote password prompt is answered by killing the process group.
unfoldable pub on_line : String → LogLine → Drain → Act Drain
unfolding tagged ◌>>=◌ say tell
on_line host (stdout s) d = say (tagged host s) >>= λ u. pure d
on_line host (stderr s) d = say (tagged host s) >>= λ u. pure d
on_line host (sudo_prompt s) d =
    say (
      tagged host
        "remote sudo asked for a password — cancelling (agent deploys must be non-interactive)")
    >>= λ u. tell killed_deploy >>= λ v. pure d
on_line host (exit code) d = pure (record d { exit_code = some code })
on_line host (error e) d = pure (record d { spawn_error = some e })

-- The cancel branch of the loop, which is off once the user has cancelled.
unfoldable pub on_cancel : String → Option Bool → Drain → Act Drain
unfolding tagged ◌>>=◌ say tell
on_cancel host (some true) d =
    if d.user_cancelled
    then pure d
    else say (tagged host "cancelling — signalling the deploy's process group") >>= λ u.
        tell killed_deploy >>= λ v. pure (record d { user_cancelled = true })
on_cancel host _ d = pure d

-- The select loop, until the channel closes.
unfoldable pub drain : String → List DeployEvent → Drain → Act Drain
unfolding on_line on_cancel ◌>>=◌
drain host [] d = pure d
drain host (line l ∷ rest) d = on_line host l d >>= drain host rest
drain host (cancel_changed v ∷ rest) d = on_cancel host v d >>= drain host rest

module _ (env : Env) (watch : WatchConfig) (flake : String) where
  -- The deploy itself, and how it ended.
  unfoldable pub run_deploy : String → DeployRequest → Act Drain
  unfolding drain ◌>>=◌ look tell
  run_deploy host req = do
    tell (started_deploy req)
    events ← look λ calls. env.deploy_events calls req
    already ← look env.cancel_flag
    if already then tell killed_deploy else pure tt
    drain host events (record { exit_code = none; spawn_error = none; user_cancelled = already })

  unfoldable pub note_unread : String → Map String → Act (Unit {0})
  note_unread host [] = say (
      tagged host
        "note: couldn't read the deployed profile paths back — drift guard disarmed until the next successful deploy")
  note_unread host (_ ∷ _) = pure tt

  -- Arm the drift guard with what activation left.
  unfoldable pub arm : String → HostConfig → Node → Act DeployOutcome
  unfolding note_unread say tagged ◌>>=◌
  arm host hc node = do
    toplevels ← read_back env flake node (ssh_override hc) (managed_profiles hc node) []
    note_unread host toplevels
    pure (deployed toplevels)

  unfoldable pub by_exit : String → HostConfig → Node → Option ℤ → Act DeployOutcome
  by_exit host hc node none = fail "deploy ended without an exit status"
  by_exit host hc node (some (pos zero)) = arm host hc node
  by_exit host hc node (some code) = fail (concat ("deploy exited with code " ∷ show_int code ∷ []))

  -- A cancel by the user decides first, then a spawn error, then the exit status.
  unfoldable pub conclude : String → HostConfig → Node → Drain → Act DeployOutcome
  unfolding by_exit
  conclude host hc node d = if d.user_cancelled then pure cancelled else elim d.spawn_error [
    | some e ↦ fail (concat ("deploy failed to run: " ∷ e ∷ []))
    | none ↦ by_exit host hc node d.exit_code
  ]

  unfoldable pub push : NotifyConfig → String → String → HostConfig → Node → Act DeployOutcome
  unfolding conclude ◌>>=◌
  push notify rev host hc node = do
    event ← new_event env "start" watch.name (some host) rev (concat ("deploying " ∷ host ∷ []))
    dispatch env notify event
    profile ← lift (profile_sel hc)
    mode ← lift (deploy_mode hc)
    d ← run_deploy host (deploy_request flake host hc node profile mode)
    conclude host hc node d

  -- The drift guard, off for an empty baseline, and then the deploy.
  unfoldable pub guarded_push :
      NotifyConfig → String → PlanHost → HostConfig → Node → Act DeployOutcome
  unfolding ◌>>=◌
  guarded_push notify rev ph hc node =
      if drift_guard hc && is_some (first_key ph.recorded_toplevels)
      then (check_drift env flake node (ssh_override hc) ph.name rev ph.recorded_toplevels
          >>= λ hold. elim hold [
            | some message ↦ pure (held message)
            | none ↦ push notify rev ph.name hc node
          ])
      else push notify rev ph.name hc node

  abbrev pub self_note : String → String
  self_note host =
      tagged host
        "note: this deploy targets the agent's own host — if it changes deptui-agent.service and the module's restartOnUpdate is enabled, the activation will stop this agent mid-deploy"

  -- A host that let the agent in: probed if this is a first encounter, deployed otherwise.
  unfoldable pub reached : NotifyConfig → String → PlanHost → HostConfig → Node → Act DeployOutcome
  unfolding tagged ◌>>=◌
  reached notify rev ph hc node = do
    if is_self_target env.hostname node.hostname then say (self_note ph.name) else pure tt
    let profiles = managed_profiles hc node
    if ph.adopt && not (bootstrap_deploys hc)
        then first_encounter env flake node (ssh_override hc) profiles profiles []
        else guarded_push notify rev ph hc node

  -- The offline probe, which runs unless the host opted out of catch-up.
  unfoldable pub probe_first : HostConfig → Node → Act (Option DeployOutcome)
  unfolding ◌>>=◌
  probe_first hc node =
      if catch_up hc
      then (let target = build_ssh_target node "system" (ssh_override hc) in
          check_reachable env target (ssh_override hc) >>= λ miss.
          pure (and_then miss λ u. some (offline target u.message u.kind)))
      else pure none

  unfoldable pub deploy_host : List Node → PlanHost → String → NotifyConfig → Act DeployOutcome
  unfolding probe_first reached ◌>>=◌
  deploy_host nodes ph rev notify = do
    hc ← lift (
        ok_or (get ph.name watch.hosts)
          (concat ("host `" ∷ ph.name ∷ "` is not configured in watch `" ∷ watch.name ∷ "`" ∷ [])))
    node ← lift (
        ok_or (find_by (λ n. n.name == ph.name) nodes)
          (concat ("node `" ∷ ph.name ∷ "` not found in deploy.nodes at " ∷ short_rev rev ∷ [])))
    miss ← probe_first hc node
    elim miss [ some outcome ↦ pure outcome | none ↦ reached notify rev ph hc node ]

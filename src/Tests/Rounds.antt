-- ===== src/Tests/Rounds.antt =====
-- Tests of a host's round and of what it leaves in the state.
use deptui.Prelude.{◌≡◌, refl, false, none, some, [], ◌∷◌, inl}
use deptui.Prelude.Map.{get}
use deptui.State.{apply_outcome, new_host}
use deptui.State.Outcome.{
  Outcome, Exclusive, standing, apply_outcome-standing, apply_outcome-Exclusive,
}
use deptui.Wire.{stalled, pending_kind, from_outcome, kind_outcome}
use deptui.State.Outcome.{kind_outcome-from_outcome}
use deptui.Runner.Hosts.{deploy_host-spared}
use deptui.Runner.Adoption.{stands_off, deploy_host-first_encounter, deploy_host-approved}
use deptui.Runner.Push.{deploy_host}
use deptui.Runner.Execute.{settle, execute}
use deptui.Runner.Records.{Account, execute-Account}
use deptui.Runner
use deptui.Daemon.Plan.{plan_host}
use deptui.Daemon.Cycle.{round-not_again, round-pending}
use deptui.Daemon.Report.{host_status}
use deptui.Daemon.Rounds.{pending_kind-pending}
use deptui.Tests.Data.{
  quiet_notify, waiting_host, fleet, alpha, beta, world, blank, alpha_plan, beta_plan,
  approved_host, round_plan, alpha_failed, beta_stalled,
}
use deptui.Effects.Quiet.{started}
use deptui.Runner.Records.{left_out, run_hosts-cancelled}
use deptui.Runner.Execute.{host_run, run_hosts}
use deptui.Tests.Data.{cancelling}
use deptui.Prelude.{map}
use deptui.Prelude.Result.{ok}
use deptui.Effects.{Machine}
use deptui.Runner.Drift.{Cleared, guarded_push-Cleared}
use deptui.Runner.Push.{guarded_push}
use deptui.Config.{ssh_override, drift_guard}
use deptui.Tests.Data.{settled, guarded_plan, plain_host}
use deptui.Deploy.{DeployRequest}
use deptui.Prelude.{List, ◌≢◌}
use deptui.State.{HostState}
use deptui.Effects.Ends.{Ended}

one_not_none : (r : DeployRequest) → r ∷ [] ≢ []
one_not_none r e = cc

deploy_host-spared_example :
    started
      (deploy_host world fleet "/clone" (beta ∷ []) beta_plan "abc123" quiet_notify blank).1.calls
    ≡ started blank.calls
unfolding deploy_host get deptui.Config.catch_up Runner.check_reachable
deploy_host-spared_example =
    deploy_host-spared world fleet "/clone" (beta ∷ []) beta_plan "abc123" quiet_notify blank refl

deploy_host-first_encounter_example :
    started
      (deploy_host world fleet "/clone" (beta ∷ []) beta_plan "abc123" quiet_notify blank).1.calls
    ≡ started blank.calls
unfolding get deptui.Config.bootstrap_deploys
deploy_host-first_encounter_example =
    deploy_host-first_encounter world fleet "/clone" quiet_notify (beta ∷ []) beta_plan "abc123"
      waiting_host blank refl refl refl

deploy_host-approved_example :
    stands_off
      (deploy_host world fleet "/clone" (alpha ∷ []) alpha_plan "abc123" quiet_notify blank).0
    ≡ false
unfolding plan_host
deploy_host-approved_example =
    deploy_host-approved world fleet "/clone" quiet_notify (alpha ∷ []) "alpha" approved_host
      alpha_plan "abc123" blank refl refl

execute-Account_example :
    Ended
      (Account round_plan)
      (execute world "/var/lib/agent" fleet quiet_notify round_plan blank).0
execute-Account_example = execute-Account world "/var/lib/agent" fleet quiet_notify round_plan blank

abbrev revoked_host : HostState
revoked_host = record approved_host { approved = false }

round-not_again_example :
    Ended
      (λ run. plan_host "alpha" (apply_outcome revoked_host run "abc123" 1000) "abc123" ≡ none)
      (settle world fleet quiet_notify "abc123" "alpha"
        (deploy_host world fleet "/clone" (alpha ∷ []) alpha_plan "abc123" quiet_notify blank).0
        blank).0
unfolding plan_host deploy_host get deptui.Config.catch_up Runner.is_self_target
    deptui.Runner.Push.guarded_push deptui.Config.drift_guard deptui.Runner.Push.push
    deptui.Notify.Dispatch.new_event deptui.Notify.Dispatch.dispatch deptui.Config.profile_sel
    deptui.Config.deploy_mode deptui.Runner.Push.run_deploy deptui.Runner.Push.arm
    deptui.Runner.Guard.read_back deptui.Runner.Push.managed_profiles deptui.Flake.ordered_profiles
    deptui.Remote.read_remote_profile_path
round-not_again_example =
    round-not_again world fleet "/clone" quiet_notify (alpha ∷ []) "alpha" "abc123" approved_host
      revoked_host alpha_plan 1000 blank blank refl (λ e. refl) refl

round-pending_example :
    Ended
      (λ run. plan_host "beta" (apply_outcome new_host run "abc123" 1000) "abc123" ≡ some beta_plan)
      (settle world fleet quiet_notify "abc123" "beta"
        (deploy_host world fleet "/clone" (beta ∷ []) beta_plan "abc123" quiet_notify blank).0
        blank).0
unfolding plan_host deploy_host get deptui.Config.catch_up Runner.check_reachable
round-pending_example =
    round-pending world fleet "/clone" quiet_notify (beta ∷ []) "beta" "abc123" new_host beta_plan
      1000 blank blank refl refl

apply_outcome-standing_example :
    apply_outcome approved_host alpha_failed "abc123" 1000
    ≡ standing Outcome.failed approved_host alpha_failed "abc123" 1000
unfolding deptui.State.Outcome.outcome_name
apply_outcome-standing_example =
    apply_outcome-standing Outcome.failed approved_host alpha_failed "abc123" 1000 refl

apply_outcome-Exclusive_example : Exclusive (apply_outcome new_host beta_stalled "abc123" 1000)
apply_outcome-Exclusive_example =
    apply_outcome-Exclusive new_host beta_stalled "abc123" 1000 (inl refl)

pending_kind-pending_example :
    pending_kind (host_status "beta" (apply_outcome new_host beta_stalled "abc123" 1000))
    ≡ some stalled
unfolding deptui.State.Outcome.outcome_name
pending_kind-pending_example =
    pending_kind-pending "beta" stalled new_host beta_stalled "abc123" 1000 refl

abbrev at_cancel : Machine
at_cancel =
    (deploy_host cancelling fleet "/clone" (alpha ∷ []) alpha_plan "abc123" quiet_notify blank).1

run_hosts-cancelled_example :
    ((run_hosts cancelling fleet quiet_notify "abc123" "/clone"
        (alpha ∷ [])
        (alpha_plan ∷ beta_plan ∷ [])
        false
        blank).0
      ≡ ok
          (host_run "alpha" "cancelled" (some "cancelled by user") ∷ map left_out (beta_plan ∷ [])))
    × (started
          (run_hosts cancelling fleet quiet_notify "abc123" "/clone"
            (alpha ∷ [])
            (alpha_plan ∷ beta_plan ∷ [])
            false
            blank).1.calls
        ≡ started at_cancel.calls)
unfolding deploy_host get deptui.Config.catch_up Runner.is_self_target
    deptui.Runner.Push.guarded_push deptui.Config.drift_guard deptui.Runner.Push.push
    deptui.Notify.Dispatch.new_event deptui.Notify.Dispatch.dispatch deptui.Config.profile_sel
    deptui.Config.deploy_mode deptui.Runner.Push.run_deploy
run_hosts-cancelled_example =
    run_hosts-cancelled cancelling fleet quiet_notify "abc123" "/clone" (alpha ∷ []) alpha_plan
      (beta_plan ∷ []) blank at_cancel refl refl

guarded_push-Cleared_example :
    Cleared settled "/clone" alpha
      (ssh_override plain_host)
      "abc123"
      guarded_plan.recorded_toplevels
      blank
unfolding drift_guard guarded_push started deptui.Runner.Guard.check_drift
    deptui.Remote.read_remote_profile_path deptui.Runner.Push.push deptui.Notify.Dispatch.new_event
    deptui.Notify.Dispatch.dispatch deptui.Config.profile_sel deptui.Config.deploy_mode
    deptui.Runner.Push.run_deploy deptui.Runner.Push.arm deptui.Runner.Guard.read_back
    deptui.Runner.Push.managed_profiles deptui.Flake.ordered_profiles deptui.Prelude.Map.insert
guarded_push-Cleared_example =
    guarded_push-Cleared settled fleet "/clone" quiet_notify "abc123" guarded_plan plain_host alpha
      blank refl refl (λ e. one_not_none _ e)

kind_outcome-from_outcome_example : "stalled" ≡ kind_outcome stalled
unfolding from_outcome
kind_outcome-from_outcome_example = kind_outcome-from_outcome "stalled" stalled refl

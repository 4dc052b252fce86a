-- ===== src/Daemon/Needs.antt =====
-- crates/deptui-agent/src/daemon.rs: the plan of a round holds exactly the hosts that need the
-- revision, and says of each what the round may do to it.
use deptui.Prelude.{
  String, ◌≡◌, ◌≢◌, ◌↔◌, refl, ap, ◌⊎◌, inl, inr, Bool, true, false, ◌||◌, ◌&&◌, Option, none, some,
  List, [], ◌∷◌, map, ◌==◌, arith, eq_iff, is_some, map_option, Bool-cases,
}
use deptui.Prelude.Text.{member}
use deptui.Prelude.Map.{Map, contains_key}
use deptui.Config.{HostConfig}
use deptui.State.{Stamp, FailStamp, HostState, WatchState, host_state}
use deptui.Runner.{PlanHost}
use deptui.Daemon.Plan.{stamped_at, failed_at, plan_host, add_planned, plan_hosts}

abbrev pub stamp_rev : Option Stamp → Option String
stamp_rev o = map_option (λ (s : Stamp). s.rev) o

abbrev pub fail_rev : Option FailStamp → Option String
fail_rev o = map_option (λ (f : FailStamp). f.rev) o

-- The host is not paused, does not have the revision, and was neither parked nor held at it unless
-- a human approved.
pub record Needs (hs : HostState) (rev : String) : Type 0 where
  pub awake : hs.paused ≡ false
  pub stale : stamp_rev hs.deployed ≢ some rev
  pub free :
      (hs.approved ≡ true) ⊎ ((fail_rev hs.failed ≢ some rev) × (stamp_rev hs.held ≢ some rev))

stamped_at_iff :
    (o : Option Stamp) (rev : String) → (stamped_at o rev ≡ true) ↔ (stamp_rev o ≡ some rev)
stamped_at_iff none rev = (λ h. cc, λ h. cc)
stamped_at_iff (some s) rev =
    (λ h. ground (arith, eq_iff s.rev rev), λ h. ground (arith, eq_iff s.rev rev))

failed_at_iff :
    (o : Option FailStamp) (rev : String) → (failed_at o rev ≡ true) ↔ (fail_rev o ≡ some rev)
failed_at_iff none rev = (λ h. cc, λ h. cc)
failed_at_iff (some f) rev =
    (λ h. ground (arith, eq_iff f.rev rev), λ h. ground (arith, eq_iff f.rev rev))

plan_host-Needs :
    (name : String) (hs : HostState) (rev : String)
    → is_some (plan_host name hs rev) ≡ true
    → Needs hs rev
unfolding plan_host
plan_host-Needs name hs rev h = record {
  awake = ground arith;
  stale = λ e. ground (arith, (stamped_at_iff hs.deployed rev).1 e);
  free = elim (Bool-cases hs.approved) [
    | inl yes' ↦ inl yes'
    | inr no' ↦ inr (
      (λ e. ground (arith, (failed_at_iff hs.failed rev).1 e)),
      (λ e. ground (arith, (stamped_at_iff hs.held rev).1 e)),
    )
  ];
}

not_true : (b : Bool) → b ≢ true → b ≡ false
not_true true h = absurd (h refl)
not_true false h = refl

not_stamped : (o : Option Stamp) (rev : String) → stamp_rev o ≢ some rev → stamped_at o rev ≡ false
not_stamped o rev h = not_true (stamped_at o rev) (λ e. h ((stamped_at_iff o rev).0 e))

not_failed : (o : Option FailStamp) (rev : String) → fail_rev o ≢ some rev → failed_at o rev ≡ false
not_failed o rev h = not_true (failed_at o rev) (λ e. h ((failed_at_iff o rev).0 e))

Needs-plan_host :
    (name : String) (hs : HostState) (rev : String)
    → Needs hs rev
    → is_some (plan_host name hs rev) ≡ true
unfolding plan_host
Needs-plan_host name hs rev n = elim n.free [
  | inl approved ↦ ground (arith, n.awake, approved, not_stamped hs.deployed rev n.stale)
  | inr free ↦ ground (
    arith,
    n.awake,
    not_stamped hs.deployed rev n.stale,
    not_failed hs.failed rev free.0,
    not_stamped hs.held rev free.1,
  )
]

abbrev pub plan_names : List PlanHost → List String
plan_names hosts = map (λ ph. ph.name) hosts

plan_host-name :
    (name : String) (hs : HostState) (rev : String) (ph : PlanHost)
    → plan_host name hs rev ≡ some ph
    → ph.name ≡ name
unfolding plan_host
plan_host-name name hs rev ph h = ground arith

member-add_planned :
    (o : Option PlanHost) (more : List PlanHost) (k name : String)
    → ((ph : PlanHost) → o ≡ some ph → ph.name ≡ k)
    → member name (plan_names (add_planned o more))
      ≡ ((is_some o && k == name) || member name (plan_names more))
member-add_planned none more k name h = refl
member-add_planned (some ph) more k name h = rw (h ph refl)

same_plan :
    (ws : WatchState) (rev k name : String)
    → (k == name) ≡ true
    → plan_host k (host_state ws k) rev ≡ plan_host name (host_state ws name) rev
same_plan ws rev k name e = ap (λ n. plan_host n (host_state ws n) rev) ((eq_iff k name).0 e)

member-plan_hosts :
    (ws : WatchState) (rev : String) (hosts : Map HostConfig) (name : String)
    → member name (plan_names (plan_hosts ws rev hosts))
      ≡ (contains_key name hosts && is_some (plan_host name (host_state ws name) rev))
unfolding plan_hosts
member-plan_hosts ws rev [] name = refl
member-plan_hosts ws rev ((k, hc) ∷ rest) name =
    rw
      (member-add_planned (plan_host k (host_state ws k) rev) (plan_hosts ws rev rest) k name
        (plan_host-name k (host_state ws k) rev))
      (elim (Bool-cases (k == name)) [
        | inl same ↦
            rw (same, same_plan ws rev k name same, member-plan_hosts ws rev rest name)
              (ground arith)
        | inr other ↦ rw (other, member-plan_hosts ws rev rest name) (ground arith)
      ])

-- A host is in the plan of a revision exactly if the watch configures it and it needs the revision:
-- it is not paused, does not have the revision, and was neither parked nor held at it unless it is
-- approved.
pub plan_hosts-Needs :
    (ws : WatchState) (rev : String) (hosts : Map HostConfig) (name : String)
    → (member name (plan_names (plan_hosts ws rev hosts)) ≡ true)
      ↔ ((contains_key name hosts ≡ true) × Needs (host_state ws name) rev)
plan_hosts-Needs ws rev hosts name =
    let e = member-plan_hosts ws rev hosts name in
    (
      (λ h. (ground (arith, e), plan_host-Needs name (host_state ws name) rev (ground (arith, e)))),
      (λ n. ground (arith, e, n.0, Needs-plan_host name (host_state ws name) rev n.1)),
    )

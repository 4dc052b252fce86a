-- ===== src/Daemon/Rounds.antt =====
-- crates/deptui-agent/src/daemon.rs and state.rs: from one round to the next. What a round recorded
-- of a host decides whether the next round at the same revision plans it again.
use deptui.Prelude.{ℕ, String, ◌≡◌, ◌≢◌, refl, false, none, some, arith, eq_refl}
use deptui.Wire.{OfflineKind, pending_kind}
use deptui.State.{HostRun, HostState, apply_outcome}
use deptui.State.Outcome.{
  Outcome, succeeded, adopted, held, failed, cancelled, pending, outcome_name, is_pending, standing,
  apply_outcome-standing,
}
use deptui.Runner.{PlanHost}
use deptui.Daemon.Plan.{plan_host, idle_reason}
use deptui.Daemon.Report.{host_status}

not_planned :
    (name : String) (o : Outcome) (hs : HostState) (hr : HostRun) (rev : String) (t : ℕ)
    → is_pending o ≡ false
    → (o ≡ held → hs.approved ≡ false)
    → plan_host name (standing o hs hr rev t) rev ≡ none
unfolding plan_host standing
not_planned name succeeded hs hr rev t p h = ground (arith, eq_refl rev)
not_planned name adopted hs hr rev t p h = ground (arith, eq_refl rev)
not_planned name held hs hr rev t p h = ground (arith, eq_refl rev, h refl)
not_planned name failed hs hr rev t p h = ground (arith, eq_refl rev)
not_planned name cancelled hs hr rev t p h = ground (arith, eq_refl rev)
not_planned name (pending k) hs hr rev t p h = cc

-- A host that an outcome other than a pending one was recorded of at a revision is not planned
-- again at that revision. A hold counts if the host was not approved.
pub plan_host-settled :
    (name : String) (o : Outcome) (hs : HostState) (hr : HostRun) (rev : String) (t : ℕ)
    → hr.outcome ≡ outcome_name o
    → is_pending o ≡ false
    → (o ≡ held → hs.approved ≡ false)
    → plan_host name (apply_outcome hs hr rev t) rev ≡ none
plan_host-settled name o hs hr rev t e p h =
    rw (apply_outcome-standing o hs hr rev t e) (not_planned name o hs hr rev t p h)

planned_again :
    (name : String) (k : OfflineKind) (hs : HostState) (hr : HostRun) (rev : String) (t : ℕ)
    (ph : PlanHost)
    → plan_host name hs rev ≡ some ph
    → plan_host name (standing (pending k) hs hr rev t) rev ≡ some ph
unfolding plan_host standing
planned_again name k hs hr rev t ph h = ground arith

-- A planned host that stays pending is planned again, in the same way.
pub plan_host-pending :
    (name : String) (k : OfflineKind) (hs : HostState) (hr : HostRun) (rev : String) (t : ℕ)
    (ph : PlanHost)
    → hr.outcome ≡ outcome_name (pending k)
    → plan_host name hs rev ≡ some ph
    → plan_host name (apply_outcome hs hr rev t) rev ≡ some ph
plan_host-pending name k hs hr rev t ph e h =
    rw (apply_outcome-standing (pending k) hs hr rev t e) (planned_again name k hs hr rev t ph h)

-- The kind of a miss that a run recorded of a host is the kind that the host's status reads as.
pub pending_kind-pending :
    (name : String) (k : OfflineKind) (hs : HostState) (hr : HostRun) (rev : String) (t : ℕ)
    → hr.outcome ≡ outcome_name (pending k)
    → pending_kind (host_status name (apply_outcome hs hr rev t)) ≡ some k
unfolding pending_kind host_status standing
pending_kind-pending name k hs hr rev t e =
    rw (apply_outcome-standing (pending k) hs hr rev t e) refl

-- For a host that is not planned at a revision there is one of the reasons that the log gives: it
-- is paused, has the revision, or was parked or held at it.
pub idle_reason_of_not_planned :
    (name : String) (hs : HostState) (rev : String)
    → plan_host name hs rev ≡ none
    → idle_reason hs rev ≢ none
unfolding plan_host idle_reason
idle_reason_of_not_planned name hs rev h = ground arith

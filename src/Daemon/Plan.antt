-- ===== src/Daemon/Plan.antt =====
-- crates/deptui-agent/src/daemon.rs: which hosts of a watch need a revision, and why the others do
-- not (`request_poll`).
use deptui.Prelude.{
  ℕ, String, Bool, true, false, ◌&&◌, not, Option, none, some, List, [], ◌∷◌, ◌==◌, if◌then◌else◌,
  is_none,
}
use deptui.Prelude.Text.{concat, join}
use deptui.Prelude.Map.{Map, get}
use deptui.Config.{HostConfig}
use deptui.State.{Stamp, FailStamp, HostState, WatchState, host_state}
use deptui.Runner.{PlanHost}

abbrev pub stamped_at : Option Stamp → String → Bool
stamped_at none rev = false
stamped_at (some s) rev = s.rev == rev

abbrev pub failed_at : Option FailStamp → String → Bool
failed_at none rev = false
failed_at (some f) rev = f.rev == rev

-- The plan's entry for a host that needs the revision.
unfoldable pub plan_host : String → HostState → String → Option PlanHost
plan_host name hs rev =
    if hs.paused
    then none
    else if stamped_at hs.deployed rev
    then none
    else if not hs.approved && failed_at hs.failed rev
    then none
    else if not hs.approved && stamped_at hs.held rev
    then none
    else some (record {
      name = name;
      adopt = not hs.approved && is_none hs.deployed;
      recorded_toplevels = if hs.approved then [] else hs.deployed_toplevels;
    })

-- `hosts.push`, unless a `continue` came first.
abbrev pub add_planned : Option PlanHost → List PlanHost → List PlanHost
add_planned none more = more
add_planned (some ph) more = ph ∷ more

-- The loop over the configured hosts, in the order of their names.
unfoldable pub plan_hosts : WatchState → String → Map HostConfig → List PlanHost
unfolding plan_host get
plan_hosts ws rev [] = []
plan_hosts ws rev ((name, hc) ∷ rest) =
    add_planned (plan_host name (host_state ws name) rev) (plan_hosts ws rev rest)

-- Why a host with a state of its own needs no deploy.
unfoldable pub idle_reason : HostState → String → Option String
idle_reason hs rev =
    if hs.paused
    then some "paused"
    else if stamped_at hs.deployed rev
    then some "already deployed"
    else if failed_at hs.failed rev
    then some "parked at this revision (approve, or push a new commit)"
    else if stamped_at hs.held rev
    then some "held (approve to let the next round deploy)"
    else none

reason_part : String → Option HostState → String → List String
unfolding idle_reason
reason_part name none rev = []
reason_part name (some hs) rev = elim (idle_reason hs rev) [
  | none ↦ []
  | some why ↦ concat (name ∷ ": " ∷ why ∷ []) ∷ []
]

unfoldable pub idle_parts : WatchState → String → Map HostConfig → List String
unfolding reason_part get
idle_parts ws rev [] = []
idle_parts ws rev ((name, hc) ∷ rest) =
    deptui.Prelude.◌++◌ (reason_part name (get name ws.hosts) rev) (idle_parts ws rev rest)

unfoldable pub idle_detail : List String → String
idle_detail [] = ""
idle_detail (p ∷ rest) = concat (" — " ∷ join "; " (p ∷ rest) ∷ [])

-- ===== src/Wire.antt =====
-- crates/deptui-core/src/agentwire.rs and crates/deptui-agent/src/wire.rs: what the agent tells its
-- clients.
use deptui.Prelude.{
  ℕ, String, Bool, Option, none, some, List, ◌==◌, if◌then◌else◌, unwrap_or, and_then,
}

pub data OfflineKind : Type 0 where
  down denied stalled : OfflineKind

unfoldable pub kind_as_str : OfflineKind → String
kind_as_str down = "down"
kind_as_str denied = "denied"
kind_as_str stalled = "stalled"

-- The run outcome that records the kind.
unfoldable pub kind_outcome : OfflineKind → String
kind_outcome down = "offline"
kind_outcome denied = "denied"
kind_outcome stalled = "stalled"

unfoldable pub from_outcome : String → Option OfflineKind
from_outcome outcome =
    if outcome == "offline"
    then some down
    else if outcome == "denied"
    then some denied
    else if outcome == "stalled"
    then some stalled
    else none

pub record RunningInfo : Type 0 where
  pub rev : String
  pub started : ℕ
  pub trigger : String

pub record HostStatus : Type 0 where
  pub name : String
  pub paused : Bool
  pub deployed_rev : Option String
  pub deployed_time : Option ℕ
  pub failed_rev : Option String
  pub failed_time : Option ℕ
  pub failed_message : Option String
  pub unreachable : Option String
  pub offline_rev : Option String
  pub offline_time : Option ℕ
  pub offline_denied : Bool
  pub offline_kind : Option OfflineKind
  pub held_rev : Option String
  pub held_time : Option ℕ
  pub approved : Bool

-- The older flag decides where an older agent sent no kind.
unfoldable pub pending_kind : HostStatus → Option OfflineKind
pending_kind h =
    and_then h.offline_rev
      λ rev. some (unwrap_or h.offline_kind (if h.offline_denied then denied else down))

pub record WatchStatus : Type 0 where
  pub name : String
  pub repo : String
  pub ref_label : String
  pub paused : Bool
  pub last_seen : Option String
  pub next_poll : Option ℕ
  pub running : Option RunningInfo
  pub hosts : List HostStatus

pub record AgentStatus : Type 0 where
  pub version : String
  pub paused : Bool
  pub pubkey : Option String
  pub watches : List WatchStatus

pub record HostOutcome : Type 0 where
  pub host : String
  pub outcome : String
  pub message : Option String

pub record RunSummary : Type 0 where
  pub watch : String
  pub id : ℕ
  pub rev : String
  pub trigger : String
  pub started : ℕ
  pub finished : Option ℕ
  pub hosts : List HostOutcome
  pub log_lines : ℕ

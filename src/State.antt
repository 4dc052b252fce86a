-- ===== src/State.antt =====
-- crates/deptui-agent/src/state.rs: the agent's persistent state and its transitions.
pub mod Outcome
pub mod History
pub mod Load
use deptui.Prelude.{
  ℕ, suc, ◌+◌, ◌%◌, String, Bool, true, false, ◌||◌, Option, none, some, List, [], ◌∷◌, ◌++◌, map,
  ◌==◌, ltb, length, if◌then◌else◌, unwrap_or, is_some,
}
use deptui.Prelude.Map.{Map, get, insert, update_or}
use deptui.Config.{u64_mod}
use deptui.Wire.{OfflineKind, down, from_outcome, HostOutcome, RunSummary}

abbrev pub schema_version : ℕ
schema_version = 1

abbrev pub max_history : ℕ
max_history = 50

abbrev pub max_run_log : ℕ
max_run_log = 2000

pub record Stamp : Type 0 where
  pub rev : String
  pub time : ℕ

pub record OfflineStamp : Type 0 where
  pub rev : String
  pub time : ℕ
  pub target : String
  pub kind : OfflineKind

pub record FailStamp : Type 0 where
  pub rev : String
  pub time : ℕ
  pub message : String

pub record HostRun : Type 0 where
  pub host : String
  pub outcome : String
  pub message : Option String
  pub target : Option String
  pub toplevels : Map String

pub record RunRecord : Type 0 where
  pub id : ℕ
  pub rev : String
  pub trigger : String
  pub started : ℕ
  pub finished : Option ℕ
  pub hosts : List HostRun
  pub log : List String

pub record HostState : Type 0 where
  pub paused : Bool
  pub deployed : Option Stamp
  pub failed : Option FailStamp
  pub unreachable : Option String
  pub approved : Bool
  pub held : Option Stamp
  pub offline : Option OfflineStamp
  pub deployed_toplevels : Map String

pub record WatchState : Type 0 where
  pub paused : Bool
  pub last_seen : Option String
  pub hosts : Map HostState
  pub history : List RunRecord

pub record AgentState : Type 0 where
  pub schema : ℕ
  pub paused : Bool
  pub next_run_id : ℕ
  pub watches : Map WatchState

-- The `Default` instances.
abbrev pub new_host : HostState
new_host = record {
  paused = false;
  deployed = none;
  failed = none;
  unreachable = none;
  approved = false;
  held = none;
  offline = none;
  deployed_toplevels = [];
}

abbrev pub new_watch : WatchState
new_watch = record { paused = false; last_seen = none; hosts = []; history = [] }

abbrev pub new_state : AgentState
new_state = record { schema = schema_version; paused = false; next_run_id = 0; watches = [] }

abbrev stamp : String → ℕ → Stamp
stamp rev time = record { rev = rev; time = time }

-- The match on the outcome's name; an unknown outcome changes nothing.
unfoldable pub apply_named : String → HostState → HostRun → String → ℕ → HostState
unfolding from_outcome
apply_named outcome hs hr rev time =
    if outcome == "ok" || outcome == "adopted"
    then record hs {
      deployed = some (stamp rev time);
      failed = none;
      offline = none;
      held = none;
      unreachable = none;
      approved = false;
      deployed_toplevels = hr.toplevels;
    }
    else if outcome == "held"
    then record hs { held = some (stamp rev time) }
    else if outcome == "failed"
    then record hs {
      failed = some (record { rev = rev; time = time; message = unwrap_or hr.message "" });
      offline = none;
      approved = false;
    }
    else if outcome == "offline" || outcome == "denied" || outcome == "stalled"
    then record hs {
      offline = some (record {
        rev = rev;
        time = time;
        target = unwrap_or hr.target "";
        kind = unwrap_or (from_outcome outcome) down;
      });
      failed = none;
      unreachable = hr.message;
    }
    else if outcome == "cancelled"
    then record hs {
      failed = some (record { rev = rev; time = time; message = unwrap_or hr.message "cancelled" });
      offline = none;
      approved = false;
    }
    else hs

-- One run outcome folded into the host's standing state.
unfoldable pub apply_outcome : HostState → HostRun → String → ℕ → HostState
unfolding apply_named
apply_outcome hs hr rev time = apply_named hr.outcome hs hr rev time

-- The entry of a watch or a host, or the one that `or_default` would make.
abbrev pub watch_state : AgentState → String → WatchState
watch_state st name = unwrap_or (get name st.watches) new_watch

abbrev pub host_state : WatchState → String → HostState
host_state ws name = unwrap_or (get name ws.hosts) new_host

-- `watch_mut`: the entry of a watch, made if it is vacant, given to `f`.
unfoldable pub update_watch : String → (WatchState → WatchState) → AgentState → AgentState
update_watch name f s = record s { watches = update_or name new_watch f s.watches }

-- `hosts.entry(host).or_default()`, given to `f`.
unfoldable pub update_host : String → (HostState → HostState) → WatchState → WatchState
update_host host f w = record w { hosts = update_or host new_host f w.hosts }

unfoldable pub take_run_id : AgentState → AgentState × ℕ
take_run_id s = let id = (s.next_run_id + 1) % u64_mod in (record s { next_run_id = id }, id)

-- `while len > MAX_HISTORY { pop_front }`: one round for each run that is there.
unfoldable pub prune : List RunRecord → List RunRecord
prune [] = []
prune (r ∷ rest) =
    let pruned = prune rest in if ltb max_history (length (r ∷ rest)) then pruned else r ∷ rest

unfoldable pub push_run : String → RunRecord → AgentState → AgentState
unfolding update_watch prune
push_run watch run = update_watch watch λ w. record w { history = prune (w.history ++ run ∷ []) }

-- A park beside a pending stamp is the older of the two.
unfoldable pub drop_park : HostState → HostState
drop_park hs = if is_some hs.offline then record hs { failed = none } else hs

map_values {ℓ} : {V : Type ℓ} → (V → V) → Map V → Map V
map_values f [] = []
map_values f ((k, v) ∷ m) = (k, f v) ∷ map_values f m

unfoldable pub drop_superseded_parks : AgentState → AgentState
unfolding map_values drop_park
drop_superseded_parks s = record s {
  watches = map_values (λ w. record w { hosts = map_values drop_park w.hosts }) s.watches;
}

host_outcome : HostRun → HostOutcome
host_outcome h = record { host = h.host; outcome = h.outcome; message = h.message }

unfoldable pub summary_from_record : String → RunRecord → RunSummary
unfolding host_outcome
summary_from_record watch r = record {
  watch = watch;
  id = r.id;
  rev = r.rev;
  trigger = r.trigger;
  started = r.started;
  finished = r.finished;
  hosts = map host_outcome r.hosts;
  log_lines = length r.log;
}

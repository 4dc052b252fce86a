-- ===== src/Daemon/Report.antt =====
-- crates/deptui-agent/src/daemon.rs: what the daemon answers: `status`, `history` and `run_log`.
use deptui.Prelude.{
  ℕ, ◌+◌, ◌-◌, String, Bool, true, false, ◌&&◌, not, Option, none, some, List, [], ◌∷◌, ◌++◌, map,
  ◌==◌, leb, same_number, if◌then◌else◌, is_none, unwrap_or, map_option, and_then, find_by,
}
use deptui.Prelude.Text.{concat}
use deptui.Prelude.Map.{Map, get, keys, contains_key}
use deptui.Prelude.Result.{Result, ok, err, ok_or}
use deptui.Wire.{OfflineKind, denied, HostStatus, RunningInfo, WatchStatus, AgentStatus, RunSummary}
use deptui.State.{
  Stamp, OfflineStamp, FailStamp, HostState, RunRecord, WatchState, new_host, summary_from_record,
}
use deptui.Config.{WatchConfig, ref_label}
use deptui.Daemon.{Daemon, RunningRun, watch_cfg}

is_denied : OfflineKind → Bool
is_denied denied = true
is_denied _ = false

unfoldable pub host_status : String → HostState → HostStatus
unfolding is_denied
host_status name hs = record {
  name = name;
  paused = hs.paused;
  deployed_rev = map_option (λ (s : Stamp). s.rev) hs.deployed;
  deployed_time = map_option (λ (s : Stamp). s.time) hs.deployed;
  failed_rev = map_option (λ (s : FailStamp). s.rev) hs.failed;
  failed_time = map_option (λ (s : FailStamp). s.time) hs.failed;
  failed_message = map_option (λ (s : FailStamp). s.message) hs.failed;
  unreachable = hs.unreachable;
  offline_rev = map_option (λ (o : OfflineStamp). o.rev) hs.offline;
  offline_time = map_option (λ (o : OfflineStamp). o.time) hs.offline;
  offline_denied = unwrap_or (map_option (λ (o : OfflineStamp). is_denied o.kind) hs.offline) false;
  offline_kind = map_option (λ (o : OfflineStamp). o.kind) hs.offline;
  held_rev = map_option (λ (s : Stamp). s.rev) hs.held;
  held_time = map_option (λ (s : Stamp). s.time) hs.held;
  approved = hs.approved;
}

-- The state that the daemon keeps of a host, which is a new one where it keeps none.
unfoldable pub kept_host : Option WatchState → String → HostState
unfolding get
kept_host ws name = unwrap_or (and_then ws λ w. get name w.hosts) new_host

unfoldable pub running_info : Option RunningRun → String → Option RunningInfo
running_info none watch = none
running_info (some r) watch =
    if r.watch == watch
    then some (record { rev = r.rev; started = r.started; trigger = r.trigger })
    else none

-- Clocks in seconds. An instant that has passed counts as now.
unfoldable pub watch_status : ℕ → ℕ → Daemon → WatchConfig → WatchStatus
unfolding kept_host host_status running_info get ref_label
watch_status unix instant d w =
    let ws = get w.name d.state.watches in
    record {
      name = w.name;
      repo = w.repo;
      ref_label = unwrap_or (ref_label w) "";
      paused = unwrap_or (map_option (λ (s : WatchState). s.paused) ws) false;
      last_seen = and_then ws λ s. s.last_seen;
      next_poll = map_option (λ (t : ℕ). unix + (t - instant)) (get w.name d.next_poll);
      running = running_info d.running w.name;
      hosts = map (λ name. host_status name (kept_host ws name)) (keys w.hosts);
    }

unfoldable pub status : String → ℕ → ℕ → Daemon → AgentStatus
unfolding watch_status
status version unix instant d = record {
  version = version;
  paused = d.state.paused;
  pubkey = d.pubkey;
  watches = map (watch_status unix instant d) d.cfg.watches;
}

wanted : Option String → String → Bool
wanted none name = true
wanted (some w) name = w == name

unfoldable pub collect : Option String → Map WatchState → List RunSummary
unfolding wanted
collect watch [] = []
collect watch ((name, ws) ∷ rest) =
    let more = collect watch rest in
    if wanted watch name then map (summary_from_record name) ws.history ++ more else more

-- A stable sort by falling start: a run goes before the first that started earlier.
unfoldable pub insert_run : RunSummary → List RunSummary → List RunSummary
insert_run r [] = r ∷ []
insert_run r (x ∷ rest) =
    let later = insert_run r rest in if leb x.started r.started then r ∷ x ∷ rest else x ∷ later

unfoldable pub sort_runs : List RunSummary → List RunSummary
unfolding insert_run
sort_runs [] = []
sort_runs (r ∷ rest) = insert_run r (sort_runs rest)

unfoldable pub known_watch : Daemon → Option String → Result (Unit {0})
unfolding get watch_cfg
known_watch d none = ok tt
known_watch d (some w) =
    if not (contains_key w d.state.watches) && is_none (watch_cfg d w)
    then err (concat ("unknown watch `" ∷ w ∷ "`" ∷ []))
    else ok tt

unfoldable pub history : Daemon → Option String → Result (List RunSummary)
unfolding known_watch collect sort_runs
history d watch = elim (known_watch d watch) [
  | err e ↦ err e
  | ok u ↦ ok (sort_runs (collect watch d.state.watches))
]

newest : List RunRecord → Option RunRecord
newest [] = none
newest (r ∷ []) = some r
newest (r ∷ s ∷ rest) = newest (s ∷ rest)

unfoldable pub pick_run : Option ℕ → List RunRecord → Option RunRecord
unfolding newest
pick_run none runs = newest runs
pick_run (some id) runs = find_by (λ r. same_number r.id id) runs

unfoldable pub run_log : Daemon → String → Option ℕ → Result (List String)
unfolding get pick_run
run_log d watch run = elim (get watch d.state.watches) [
  | none ↦ err (concat ("unknown watch `" ∷ watch ∷ "`" ∷ []))
  | some ws ↦ ok_or (map_option (λ (r : RunRecord). r.log) (pick_run run ws.history)) "no such run"
]

-- ===== src/Tui.antt =====
-- crates/deptui/src/app.rs and settings.rs: the state of the terminal interface. What the program
-- does to the outside, such as starting a deploy, is kept in the state as a list of effects, newest
-- first; what it hears back from the clipboard, the key directory and the clock is a `World`.
pub mod Joblog
pub mod Log
pub mod Probes
pub mod Search
pub mod Select
pub mod Visual
pub mod Agent
pub mod Queue
pub mod Cancel
pub mod Seed
pub mod Lines
pub mod Modal
pub mod Passwords
pub mod Overrides
pub mod Keys
pub mod Commands
pub mod AgentKeys
pub mod Events
pub mod Calm
pub mod Sound
pub mod Starts
pub mod Announced
pub mod Guarded
pub mod Batch
pub mod Selection
pub mod Shown
pub mod Unseen
pub mod Matches
pub mod Failures
use deptui.Prelude.{
  ℕ, ℤ, String, Bool, true, false, ◌||◌, not, Option, none, some, List, [], ◌∷◌, ◌++◌, ◌==◌,
  if◌then◌else◌, any_by, find_by, is_some, unwrap_or,
}
use deptui.Prelude.Map.{Map, get, insert}
use deptui.Prelude.Vectors.{get_elem?}
use deptui.Wire.{AgentStatus}
use deptui.Ssh.{SshOverride, no_override}
use deptui.Flake.{Node}
use deptui.Deploy.{
  Mode, ProfileSel, Toggles, AskpassEnv, DeployRequest, default_toggles, switch, all,
}
use deptui.Remote.Status.{HostStatus, BuildSite, new_status, local, remote}
use deptui.Tui.Joblog.{LogEntry, VisualSel}

pub data FocusPane : Type 0 where
  toggles hosts job_log commands : FocusPane

pub data OverrideField : Type 0 where
  hostname user identity opts : OverrideField

unfoldable pub field_label : OverrideField → String
field_label hostname = "hostname / IP"
field_label user = "ssh user"
field_label identity = "identity file"
field_label opts = "extra ssh opts"

pub data PromptSource : Type 0 where
  askpass sudo sudo_pre : PromptSource

pub data InputMode : Type 0 where
  normal overrides_menu : InputMode
  edit_override : OverrideField → String → InputMode
  identity_picker : List String → ℕ → String → InputMode
  confirm_deploy : List String → Mode → ProfileSel → InputMode
  confirm_quit : Bool → InputMode
  search_log search_help : String → InputMode
  password_prompt : String → String → PromptSource → InputMode

pub record LastDeploy : Type 0 where
  pub node : String
  pub mode : Mode
  pub profile : ProfileSel
  pub exit_code : ℤ
  pub ok : Bool

pub record LogStash : Type 0 where
  pub entries : List LogEntry
  pub scroll : ℕ
  pub top_offset : ℕ
  pub visual : Option VisualSel
  pub search : Option String
  pub search_match_idx : ℕ

abbrev pub empty_stash : LogStash
empty_stash = record {
  entries = [];
  scroll = 0;
  top_offset = 0;
  visual = none;
  search = none;
  search_match_idx = 0;
}

-- A task is known by its number; instants are seconds of the monotonic clock.
pub record AgentUi : Type 0 where
  pub open_view : Bool
  pub agents : List (String × String)
  pub current : ℕ
  pub status : Option AgentStatus
  pub error : Option String
  pub loading : Bool
  pub sel : ℕ
  pub log_state : LogStash
  pub marked : List String
  pub log_focused : Bool
  pub backfilled : Bool
  pub tail_task : Option ℕ
  pub last_tail_start : Option ℕ
  pub last_op : Option String
  pub pending_approve : Option (String × String)
  pub settings_error : Option String
  pub last_status_fetch : Option ℕ
  pub scanning : Bool
  pub scanned : Bool
  pub scan_failures : List (String × String)

pub record AgentManaged : Type 0 where
  pub failed : Bool
  pub offline : Bool
  pub denied : Bool
  pub stalled : Bool
  pub held : Bool

-- The running batch. The deploy's canceller and its standard input are there or not.
pub record DeploySession : Type 0 where
  pub cancel : Bool
  pub stdin_tx : Bool
  pub current : String
  pub queue : List String
  pub mode : Mode
  pub profile : ProfileSel
  pub total : ℕ
  pub done : ℕ

pub data ProbeKind : Type 0 where
  reachability : ProbeKind
  update : String → ProbeKind
  size pkg_diff : String → String → String → ProbeKind
  build_plan : String → BuildSite → ProbeKind
  cache_drift : BuildSite → ProbeKind

pub record ProbeCtx : Type 0 where
  pub flake : String
  pub node : Node
  pub override : SshOverride
  pub askpass : AskpassEnv

pub data Effect : Type 0 where
  started : DeployRequest → Option String → Effect
  cancelled aborted : String → Effect
  sent_askpass sent_stdin : String → Effect
  probed : ProbeKind → ProbeCtx → ℕ → Effect
  rediscovered : String → ℕ → Effect
  aborted_probes : List ℕ → Effect
  fetched_status agent_backfilled : String → Effect
  agent_verb : String → List String → Effect
  tail_started : String → ℕ → Effect
  tail_stopped : ℕ → Effect
  scanned_agents : List Node → Effect
  yanked : String → Effect
  panicked : Effect

pub record World : Type 0 where
  pub clipboard : List Effect → String → Bool
  pub ssh_keys : List Effect → List String
  pub instant : List Effect → ℕ
  pub finished : List Effect → ℕ → Bool

pub record App : Type 0 where
  pub flake : String
  pub nodes : List Node
  pub status : Map HostStatus
  pub overrides : Map SshOverride
  pub selected : ℕ
  pub marked : List String
  pub focus : FocusPane
  pub toggle_index : ℕ
  pub command_index : ℕ
  pub mode : Mode
  pub profile_sel : ProfileSel
  pub toggles : Toggles
  pub log : List LogEntry
  pub busy_label : Option String
  pub log_search : Option String
  pub log_search_match_idx : ℕ
  pub help_search : Option String
  pub last_deploy : Option LastDeploy
  pub last_deploys : Map LastDeploy
  pub job_log_scroll : ℕ
  pub job_log_top_offset : ℕ
  pub visual_sel : Option VisualSel
  pub show_help : Bool
  pub help_scroll : ℕ
  pub input : InputMode
  pub deploy : Option DeploySession
  pub extra_build_args : List String
  pub askpass_env : AskpassEnv
  pub cached_password : Option String
  pub pending_deploy : Option (List String × Mode × ProfileSel)
  pub probe_tasks : List ℕ
  pub agent : AgentUi
  pub agent_managed : Map AgentManaged
  pub should_quit : Bool
  pub effects : List Effect

-- Settings, as the file gives them.
pub record Settings : Type 0 where
  pub default_agent : Option String
  pub agents : Map String
  pub load_error : Option String

other_agents : Option String → Map String → List (String × String)
other_agents d [] = []
other_agents none ((name, ssh) ∷ rest) = (name, ssh) ∷ other_agents none rest
other_agents (some d) ((name, ssh) ∷ rest) =
    let others = other_agents (some d) rest in if name == d then others else (name, ssh) ∷ others

-- The agent that is named first, and the others in the order of their names.
unfoldable pub agent_list : Settings → List (String × String)
unfolding other_agents get
agent_list s = elim s.default_agent [
  | none ↦ other_agents none s.agents
  | some d ↦ elim (get d s.agents) [
    | none ↦ other_agents (some d) s.agents
    | some ssh ↦ (d, ssh) ∷ other_agents (some d) s.agents
  ]
]

unfoldable pub new_agent : Settings → AgentUi
unfolding agent_list
new_agent s = record {
  open_view = false;
  agents = agent_list s;
  current = 0;
  status = none;
  error = none;
  loading = false;
  sel = 0;
  log_state = empty_stash;
  marked = [];
  log_focused = false;
  backfilled = false;
  tail_task = none;
  last_tail_start = none;
  last_op = none;
  pending_approve = none;
  settings_error = s.load_error;
  last_status_fetch = none;
  scanning = false;
  scanned = false;
  scan_failures = [];
}

fresh_statuses : List Node → Map HostStatus → Map HostStatus
unfolding insert
fresh_statuses [] m = m
fresh_statuses (n ∷ nodes) m = fresh_statuses nodes (insert n.name new_status m)

unfoldable pub with_settings : String → List Node → Settings → App
unfolding fresh_statuses new_agent
with_settings flake nodes settings = record {
  flake = flake;
  nodes = nodes;
  status = fresh_statuses nodes [];
  overrides = [];
  selected = 0;
  marked = [];
  focus = hosts;
  toggle_index = 0;
  command_index = 0;
  mode = switch;
  profile_sel = all;
  toggles = default_toggles;
  log = [];
  busy_label = none;
  log_search = none;
  log_search_match_idx = 0;
  help_search = none;
  last_deploy = none;
  last_deploys = [];
  job_log_scroll = 0;
  job_log_top_offset = 0;
  visual_sel = none;
  show_help = false;
  help_scroll = 0;
  input = normal;
  deploy = none;
  extra_build_args = [];
  askpass_env = record { script_path = "/dev/null"; socket_path = "/dev/null" };
  cached_password = none;
  pending_deploy = none;
  probe_tasks = [];
  agent = new_agent settings;
  agent_managed = [];
  should_quit = false;
  effects = [];
}

unfoldable pub selected_node : App → Option Node
selected_node a = get_elem? a.nodes a.selected

unfoldable pub status_for : App → String → HostStatus
unfolding get
status_for a name = unwrap_or (get name a.status) new_status

unfoldable pub override_for : App → String → SshOverride
unfolding get
override_for a name = unwrap_or (get name a.overrides) no_override

-- `set_cached_password` and `clear_cached_password`; the locking of pages is not modelled.
unfoldable pub set_cached_password : String → App → App
set_cached_password pw a = record a { cached_password = some pw }

unfoldable pub clear_cached_password : App → App
clear_cached_password a = record a { cached_password = none }

unfoldable pub find_node : String → List Node → Option Node
find_node name nodes = find_by (λ n. n.name == name) nodes

-- The entry of a host's status, made if it is not there, and a change of it.
unfoldable pub update_status : String → (HostStatus → HostStatus) → App → App
unfolding get insert
update_status name f a = record a {
  status = insert name (f (unwrap_or (get name a.status) new_status)) a.status;
}

unfoldable pub build_site : App → BuildSite
build_site a = if a.toggles.remote_build then remote else local

unfoldable pub emit : Effect → App → App
emit e a = record a { effects = e ∷ a.effects }

unfoldable pub has_inflight_work : World → App → Bool
has_inflight_work w a =
    is_some a.deploy
    || any_by (λ t. not (w.finished a.effects t)) a.probe_tasks
    || a.agent.open_view

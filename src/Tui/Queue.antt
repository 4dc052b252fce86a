-- ===== src/Tui/Queue.antt =====
-- crates/deptui/src/app.rs: from the key that asks for a deploy to the start of its hosts, one after
-- the other, and its cancel.
use deptui.Prelude.{
  ℕ, suc, ◌+◌, String, Bool, true, false, ◌&&◌, Option, none, some, List, [], ◌∷◌, length, ltb,
  if◌then◌else◌,
}
use deptui.Prelude.Text.{concat, decimal, join}
use deptui.Prelude.Map.{get}
use deptui.Prelude.Result.{Result, ok, err}
use deptui.Flake.{Node, has_system, has_home, ordered_profiles}
use deptui.Deploy.{
  Mode, ProfileSel, ProfileInfo, SeedPlan, DeployRequest, all, system, home, boot, mode_label,
  profile_label,
}
use deptui.Remote.Status.{plain, run_start}
use deptui.Tui.{App, confirm_deploy, started, emit, find_node, selected_node, override_for}
use deptui.Tui.Log.{push_log, push_log_line, push_log_tagged}
use deptui.Tui.Seed.{inert_remote_build_args, seed_plan_for}

unfoldable pub is_boot : Mode → Bool
is_boot boot = true
is_boot _ = false

unfoldable pub is_home : ProfileSel → Bool
is_home home = true
is_home _ = false

-- The marked hosts, or else the selected one.
unfoldable pub deploy_targets : App → List String
unfolding selected_node
deploy_targets a = elim a.marked [
  | [] ↦ elim (selected_node a) [ none ↦ [] | some n ↦ n.name ∷ [] ]
  | m ∷ marked ↦ m ∷ marked
]

-- The checks of a request on an app with no deploy under way.
unfoldable pub request_idle : Mode → App → App
unfolding is_boot is_home deploy_targets push_log
request_idle mode a =
    if is_boot mode && is_home a.profile_sel
    then push_log "! boot is not supported for the home-manager profile" true a
    else elim (deploy_targets a) [
      | [] ↦ push_log "! no host selected" true a
      | h ∷ hosts ↦ record a { input = confirm_deploy (h ∷ hosts) mode a.profile_sel }
    ]

unfoldable pub request_deploy : Mode → App → App
unfolding request_idle push_log
request_deploy mode a = elim a.deploy [
  | some session ↦ push_log "! a deploy is already running — press x to cancel" true a
  | none ↦ request_idle mode a
]

unfoldable pub warn_inert : String → List String → App → App
unfolding push_log_tagged
warn_inert node [] a = a
warn_inert node (i ∷ inert) a =
    push_log_tagged
      (concat (
        "! "
        ∷ join ", " (i ∷ inert)
        ∷ " is inert with --remote-build: it configures the local nix client, but the target's"
        ∷ " daemon does the fetching. Use Shift+C so deptui seeds the target's store instead."
        ∷ []))
      true (some node) a

unfoldable pub report_args : List String → String → App → App
unfolding warn_inert inert_remote_build_args push_log_tagged
report_args [] node a = a
report_args (x ∷ args) node a =
    let b =
      push_log_tagged (concat ("• extra build args: " ∷ join " " (x ∷ args) ∷ [])) false (some node)
        a in
    if a.toggles.remote_build then warn_inert node (inert_remote_build_args (x ∷ args)) b else b

unfoldable pub report_build_args : String → App → App
unfolding report_args
report_build_args node a = report_args a.extra_build_args node a

infos : Node → List String → List ProfileInfo
unfolding get
infos node [] = []
infos node (name ∷ names) = elim (get name node.profiles) [
  | none ↦ infos node names
  | some p ↦ record { name = name; user = p.user } ∷ infos node names
]

-- The node to deploy for a host of the queue, or why the host is passed over.
unfoldable pub pick : String → ProfileSel → Option Node → Result Node
unfolding has_home has_system
pick name sel none = err (concat ("! unknown host " ∷ name ∷ " — skipped" ∷ []))
pick name all (some node) = ok node
pick name home (some node) =
    if has_home node
    then ok node
    else err (concat ("! " ∷ name ∷ " has no home profile — skipped" ∷ []))
pick name system (some node) =
    if has_system node
    then ok node
    else err (concat ("! " ∷ name ∷ " has no system profile — skipped" ∷ []))

unfoldable pub busy_text : String → ℕ → ℕ → String
unfolding decimal
busy_text node total done =
    if ltb 1 total
    then concat ("deploying [" ∷ decimal (done + 1) ∷ "/" ∷ decimal total ∷ "] " ∷ node ∷ [])
    else concat ("deploying " ∷ node ∷ [])

unfoldable pub request_for : Node → Mode → ProfileSel → Option SeedPlan → App → DeployRequest
unfolding infos ordered_profiles override_for
request_for node mode profile seed a = record {
  flake = a.flake;
  node = node.name;
  profile = profile;
  mode = mode;
  toggles = a.toggles;
  ssh_override = override_for a node.name;
  askpass = a.askpass_env;
  profiles = infos node (ordered_profiles node);
  extra_build_args = a.extra_build_args;
  seed = seed;
  node_info = some node;
}

unfoldable pub announce_start : String → Mode → ProfileSel → ℕ → ℕ → App → App
unfolding push_log_tagged mode_label profile_label decimal
announce_start node mode profile total done a =
    push_log_tagged
      (concat (
        "→ deploy ["
        ∷ decimal (done + 1)
        ∷ "/"
        ∷ decimal total
        ∷ "] "
        ∷ node
        ∷ " ("
        ∷ mode_label mode
        ∷ ", "
        ∷ profile_label profile
        ∷ ")"
        ∷ []))
      false (some node) a

-- `deploy::run`: the handle has a canceller, and an input if sudo is interactive.
unfoldable pub launch : DeployRequest → Node → List String → Mode → ProfileSel → ℕ → ℕ → App → App
unfolding emit busy_text
launch req node queue mode profile total done a =
    let pw = if a.toggles.interactive_sudo then a.cached_password else none in
    let b = emit (started req pw) a in
    record b {
      busy_label = some (busy_text node.name total done);
      deploy = some (record {
        cancel = true;
        stdin_tx = a.toggles.interactive_sudo;
        current = node.name;
        queue = queue;
        mode = mode;
        profile = profile;
        total = total;
        done = done;
      });
    }

unfoldable pub start_host : Node → List String → Mode → ProfileSel → ℕ → ℕ → App → App
unfolding seed_plan_for request_for report_build_args announce_start launch
start_host node queue mode profile total done a =
    let (seed, b) = seed_plan_for node.name a in
    launch (request_for node mode profile seed a) node queue mode profile total done
      (announce_start node.name mode profile total done (report_build_args node.name b))

-- The hosts that cannot be deployed are passed over; an empty queue leaves no session.
unfoldable pub start_next_in_queue : List String → Mode → ProfileSel → ℕ → ℕ → App → App
unfolding start_host pick find_node push_log_tagged
start_next_in_queue [] mode profile total done a = a
start_next_in_queue (name ∷ queue) mode profile total done a =
    elim (pick name profile (find_node name a.nodes)) [
      | err message ↦
          start_next_in_queue queue mode profile total (done + 1)
            (push_log_tagged message true (some name) a)
      | ok node ↦ start_host node queue mode profile total done a
    ]

unfoldable pub profiles_label : ProfileSel → String
profiles_label all = "system+home"
profiles_label system = "system"
profiles_label home = "home"

-- A request has one host at least.
unfoldable pub batch_label : List String → String
unfolding decimal
batch_label [] = ""
batch_label (one ∷ []) = one
batch_label (one ∷ two ∷ more) = concat (one ∷ " + " ∷ decimal (suc (length more)) ∷ " more" ∷ [])

unfoldable pub run_banner : List String → Mode → ProfileSel → String
unfolding batch_label mode_label profiles_label
run_banner hosts mode profile = concat (
    "━━ deploy "
    ∷ batch_label hosts
    ∷ " — "
    ∷ mode_label mode
    ∷ "/"
    ∷ profiles_label profile
    ∷ " ━━"
    ∷ [])

unfoldable pub run_confirmed : List String → Mode → ProfileSel → App → App
unfolding start_next_in_queue push_log_line run_banner
run_confirmed hosts mode profile a = start_next_in_queue hosts mode profile (length hosts) 0 (
    push_log_line (run_banner hosts mode profile) false none run_start (
      push_log_line "" false none plain
        (record a { mode = mode; last_deploy = none; job_log_scroll = 0; visual_sel = none })))

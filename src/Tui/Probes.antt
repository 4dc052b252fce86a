-- ===== src/Tui/Probes.antt =====
-- crates/deptui/src/app.rs: the background checks, from the key that asks for them to their abort.
use deptui.Prelude.{
  ℕ, String, true, false, not, none, some, List, [], ◌∷◌, ◌++◌, length, filter_by, if◌then◌else◌,
}
use deptui.Prelude.Text.{concat}
use deptui.Prelude.Map.{Map, keys}
use deptui.Flake.{Node, ordered_profiles}
use deptui.Deploy.{profile_label, selects}
use deptui.Remote.Status.{
  HostStatus, ProfileStatus, BuildSite, site_label, with_profile, profile_of, note,
}
use deptui.Tui.{
  App, World, ProbeKind, ProbeCtx, reachability, update, size, pkg_diff, build_plan, cache_drift,
  probed, rediscovered, aborted_probes, emit, selected_node, status_for, override_for, find_node,
  update_status, build_site,
}
use deptui.Tui.Log.{push_log, push_log_line, push_log_tagged}
use deptui.Tui.Agent.{fetch_agent_status}

unfoldable pub unfinished : World → App → List ℕ
unfinished w a = filter_by (λ t. not (w.finished a.effects t)) a.probe_tasks

unfoldable pub track_probe : World → ℕ → App → App
unfolding unfinished
track_probe w handle a = record a { probe_tasks = unfinished w a ++ handle ∷ [] }

unfoldable pub probe_ctx : App → Node → ProbeCtx
unfolding override_for
probe_ctx a node = record {
  flake = a.flake;
  node = node;
  override = override_for a node.name;
  askpass = a.askpass_env;
}

-- A task that is spawned now bears the number of the effects before it.
unfoldable pub spawn_probe : World → Node → ProbeKind → App → App
unfolding track_probe probe_ctx emit
spawn_probe w node kind a =
    let task = length a.effects in track_probe w task (emit (probed kind (probe_ctx a node) task) a)

unfoldable pub mark_checking : List Node → App → App
unfolding update_status
mark_checking [] a = a
mark_checking (n ∷ nodes) a =
    mark_checking nodes (update_status n.name (λ s. record s { checking_reachability = true }) a)

unfoldable pub spawn_each : World → ProbeKind → List Node → App → App
unfolding spawn_probe
spawn_each w kind [] a = a
spawn_each w kind (n ∷ nodes) a = spawn_each w kind nodes (spawn_probe w n kind a)

unfoldable pub rediscover : World → App → App
unfolding track_probe emit
rediscover w a =
    let task = length a.effects in track_probe w task (emit (rediscovered a.flake task) a)

unfoldable pub refresh_reachability : World → App → App
unfolding mark_checking spawn_each rediscover fetch_agent_status push_log
refresh_reachability w a =
    let b = elim a.agent.agents as (λ _. App) [ [] ↦ a | _ ∷ _ ↦ fetch_agent_status w a ] in
    push_log "→ refreshing nodes and reachability" false
      (rediscover w (spawn_each w reachability b.nodes (mark_checking b.nodes b)))

marked_nodes : List Node → List String → List Node
unfolding find_node
marked_nodes nodes [] = []
marked_nodes nodes (name ∷ names) = elim (find_node name nodes) [
  | none ↦ marked_nodes nodes names
  | some n ↦ n ∷ marked_nodes nodes names
]

unfoldable pub target_nodes : App → List Node
unfolding marked_nodes selected_node
target_nodes a = elim a.marked [
  | [] ↦ elim (selected_node a) [ none ↦ [] | some n ↦ n ∷ [] ]
  | m ∷ marked ↦ marked_nodes a.nodes (m ∷ marked)
]

-- A check of each node in turn.
unfoldable pub for_each : (Node → App → App) → List Node → App → App
for_each f [] a = a
for_each f (n ∷ nodes) a = for_each f nodes (f n a)

check_profiles : List String → HostStatus → HostStatus
unfolding with_profile
check_profiles [] s = s
check_profiles (p ∷ profiles) s =
    check_profiles profiles (with_profile p (λ ps. record ps { checking = true }) s)

unfoldable pub spawn_updates : World → Node → List String → App → App
unfolding spawn_probe
spawn_updates w node [] a = a
spawn_updates w node (p ∷ profiles) a =
    spawn_updates w node profiles (spawn_probe w node (update p) a)

unfoldable pub refresh_updates_for_node : World → Node → App → App
unfolding check_profiles spawn_updates update_status push_log_tagged
refresh_updates_for_node w node a =
    let profiles = keys node.profiles in
    push_log_tagged (concat ("→ checking updates for " ∷ node.name ∷ [])) false (some node.name) (
      spawn_updates w node profiles
        (update_status node.name (λ s. record (check_profiles profiles s) { last_error = none }) a))

unfoldable pub refresh_updates_for_selected : World → App → App
unfolding refresh_updates_for_node for_each target_nodes
refresh_updates_for_selected w a = for_each (refresh_updates_for_node w) (target_nodes a) a

unfoldable pub spawn_plans : World → Node → BuildSite → List String → App → App
unfolding spawn_probe
spawn_plans w node site [] a = a
spawn_plans w node site (p ∷ profiles) a =
    spawn_plans w node site profiles (spawn_probe w node (build_plan p site) a)

-- The preflight of a node with profiles to plan.
unfoldable pub plan_profiles : World → Node → BuildSite → List String → App → App
unfolding spawn_plans update_status status_for push_log_tagged site_label
plan_profiles w node site profiles a =
    if (status_for a node.name).checking_plan
    then update_status node.name (λ s. s) a
    else spawn_plans w node site profiles (
        push_log_tagged
          (concat ("→ preflighting the " ∷ site_label site ∷ " build for " ∷ node.name ∷ [])) false
          (some node.name) (update_status node.name (λ s. record s { checking_plan = true }) a))

unfoldable pub refresh_build_plan_for_node : World → Node → App → App
unfolding plan_profiles build_site ordered_profiles selects profile_label push_log_tagged
refresh_build_plan_for_node w node a =
    elim (filter_by (selects a.profile_sel) (ordered_profiles node)) [
      | [] ↦
          push_log_tagged
            (concat (
              "! "
              ∷ node.name
              ∷ " has no "
              ∷ profile_label a.profile_sel
              ∷ " profile — nothing to plan"
              ∷ []))
            true (some node.name) a
      | p ∷ profiles ↦ plan_profiles w node (build_site a) (p ∷ profiles) a
    ]

unfoldable pub refresh_build_plan_for_selected : World → App → App
unfolding refresh_build_plan_for_node for_each target_nodes
refresh_build_plan_for_selected w a = for_each (refresh_build_plan_for_node w) (target_nodes a) a

unfoldable pub refresh_cache_drift_for_node : World → BuildSite → Node → App → App
unfolding spawn_probe update_status status_for push_log_tagged site_label
refresh_cache_drift_for_node w site node a =
    if (status_for a node.name).checking_cache
    then update_status node.name (λ s. s) a
    else spawn_probe w node (cache_drift site) (
        push_log_tagged
          (concat (
            "→ checking substituter drift for "
            ∷ node.name
            ∷ " ("
            ∷ site_label site
            ∷ " build)"
            ∷ []))
          false (some node.name)
          (update_status node.name (λ s. record s { checking_cache = true }) a))

unfoldable pub refresh_cache_drift_for_selected : World → App → App
unfolding refresh_cache_drift_for_node for_each target_nodes build_site
refresh_cache_drift_for_selected w a =
    for_each (refresh_cache_drift_for_node w (build_site a)) (target_nodes a) a

-- The paths that an earlier update check has found for each profile.
unfoldable pub cached_paths : HostStatus → List String → List (String × String × String)
unfolding profile_of
cached_paths s [] = []
cached_paths s (p ∷ profiles) = elim (profile_of s p).extra.local_path [
  | none ↦ cached_paths s profiles
  | some l ↦ elim (profile_of s p).extra.remote_path [
    | none ↦ cached_paths s profiles
    | some r ↦ (p, l, r) ∷ cached_paths s profiles
  ]
]

unfoldable pub spawn_sizes : World → Node → List (String × String × String) → App → App
unfolding spawn_probe update_status with_profile
spawn_sizes w node [] a = a
spawn_sizes w node ((p, l, r) ∷ rest) a = spawn_sizes w node rest (
    spawn_probe w node (size p l r) (
      update_status node.name
        (with_profile p λ ps. record ps { extra = record ps.extra { checking_size = true } }) a))

unfoldable pub refresh_sizes_for_node : World → Node → App → App
unfolding spawn_sizes cached_paths update_status status_for push_log_tagged
refresh_sizes_for_node w node a =
    let b = update_status node.name (λ s. s) a in
    elim (cached_paths (status_for b node.name) (keys node.profiles)) [
      | [] ↦
          push_log_tagged (concat ("! no cached paths for " ∷ node.name ∷ " — press u first" ∷ []))
            true (some node.name) b
      | p ∷ paths ↦
          push_log_tagged (concat ("→ checking closure sizes for " ∷ node.name ∷ [])) false
            (some node.name) (spawn_sizes w node (p ∷ paths) b)
    ]

unfoldable pub refresh_sizes_for_selected : World → App → App
unfolding refresh_sizes_for_node for_each target_nodes
refresh_sizes_for_selected w a = for_each (refresh_sizes_for_node w) (target_nodes a) a

unfoldable pub spawn_pkg_diff_for_profile : World → Node → String → String → String → App → App
unfolding spawn_probe update_status with_profile push_log_line
spawn_pkg_diff_for_profile w node profile local_path remote_path a =
    push_log_line (concat ("→ computing package diff for " ∷ node.name ∷ " (" ∷ profile ∷ ")" ∷ []))
      false (some node.name) note
      (spawn_probe w node (pkg_diff profile local_path remote_path) (
        update_status node.name
          (with_profile profile λ ps. record ps { extra = record ps.extra { checking_pkg = true } })
          a))

still_profile : ProfileStatus → ProfileStatus
still_profile p = record p {
  checking = false;
  extra = record p.extra { checking_size = false; checking_pkg = false };
}

-- `values_mut` of a map.
map_values : {A : Type 0} → (A → A) → Map A → Map A
map_values f [] = []
map_values f ((k, v) ∷ m) = (k, f v) ∷ map_values f m

still_host : HostStatus → HostStatus
unfolding map_values still_profile
still_host s = record s {
  checking_reachability = false;
  profiles = map_values still_profile s.profiles;
  checking_cache = false;
  checking_plan = false;
}

-- With the number of checks that were still in flight.
unfoldable pub cancel_probes : World → App → ℕ × App
unfolding unfinished still_host map_values emit
cancel_probes w a = (
  length (unfinished w a),
  emit (aborted_probes (unfinished w a))
      (record a { probe_tasks = []; status = map_values still_host a.status }),
)

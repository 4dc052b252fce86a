-- ===== src/Tui/Calm/Checks.antt =====
-- crates/deptui/src/app.rs: the start and the end of background checks.
use deptui.Prelude.{ℕ, String, true, List, [], ◌∷◌, arith, filter_by}
use deptui.Prelude.Map.{keys}
use deptui.Flake.{Node, ordered_profiles}
use deptui.Deploy.{selects}
use deptui.Remote.Status.{BuildSite, with_profile}
use deptui.Tui.{
  App, World, ProbeKind, reachability, update, size, build_plan, emit, status_for, build_site,
  update_status,
}
use deptui.Tui.Probes.{
  track_probe, spawn_probe, refresh_reachability, refresh_updates_for_node,
  refresh_updates_for_selected, refresh_build_plan_for_node, refresh_build_plan_for_selected,
  refresh_cache_drift_for_node, refresh_cache_drift_for_selected, refresh_sizes_for_node,
  refresh_sizes_for_selected, spawn_pkg_diff_for_profile, cancel_probes, target_nodes,
  mark_checking, spawn_each, rediscover, for_each, spawn_updates, spawn_plans, plan_profiles,
  spawn_sizes, cached_paths,
}
use deptui.Tui.Agent.{fetch_agent_status}
use deptui.Tui.Calm.{
  Calm, Calm-refl, Calm-trans, Calm-list, Calm-push_log_tagged, tagged, logged, calm_rules,
}
use deptui.Tui.Calm.Views.{Calm-fetch}

Calm-track : (w : World) (task : ℕ) (a : App) → Calm a (track_probe w task a)
unfolding track_probe
Calm-track w task a = ground arith

pub Calm-spawn :
    (w : World) (node : Node) (kind : ProbeKind) (a : App) → Calm a (spawn_probe w node kind a)
unfolding spawn_probe emit
Calm-spawn w node kind a = Calm-trans (ground arith) (Calm-track w _ _)

module _ {a b : App} (w : World) (node : Node) where
  spawned : (kind : ProbeKind) → Calm a b → Calm a (spawn_probe w node kind b)
  spawned kind h = Calm-trans h (Calm-spawn w node kind b)

Calm-mark_checking : (nodes : List Node) (a : App) → Calm a (mark_checking nodes a)
unfolding mark_checking
Calm-mark_checking [] a = Calm-refl a
Calm-mark_checking (n ∷ nodes) a = Calm-trans (search calm_rules) (
    Calm-mark_checking nodes
      (update_status n.name (λ s. record s { checking_reachability = true }) a))

Calm-spawn_each :
    (w : World) (kind : ProbeKind) (nodes : List Node) (a : App)
    → Calm a (spawn_each w kind nodes a)
unfolding spawn_each
Calm-spawn_each w kind [] a = Calm-refl a
Calm-spawn_each w kind (n ∷ nodes) a =
    Calm-trans (Calm-spawn w n kind a) (Calm-spawn_each w kind nodes _)

Calm-rediscover : (w : World) (a : App) → Calm a (rediscover w a)
unfolding rediscover emit
Calm-rediscover w a = Calm-trans (ground arith) (Calm-track w _ _)

pub Calm-badges :
    (w : World) (a : App) (agents : List (String × String))
    → Calm a (elim agents as (λ _. App) [ [] ↦ a | _ ∷ _ ↦ fetch_agent_status w a ])
Calm-badges w a [] = Calm-refl a
Calm-badges w a (x ∷ xs) = Calm-fetch w a

pub Calm-reachability : (w : World) (a : App) → Calm a (refresh_reachability w a)
unfolding refresh_reachability
Calm-reachability w a =
    let b : App = elim a.agent.agents as (λ _. App) [ [] ↦ a | _ ∷ _ ↦ fetch_agent_status w a ] in
    let c : App = mark_checking b.nodes b in
    let d : App = spawn_each w reachability b.nodes c in
    Calm-trans {b = b} (Calm-badges w a a.agent.agents) (
      Calm-trans {b = c} (Calm-mark_checking b.nodes b) (
        Calm-trans {b = d} (Calm-spawn_each w reachability b.nodes c)
          (logged _ _ (Calm-rediscover w d))))

Calm-for_each :
    (f : Node → App → App)
    → ((n : Node) (a : App) → Calm a (f n a))
    → (nodes : List Node) (a : App) → Calm a (for_each f nodes a)
unfolding for_each
Calm-for_each f h [] a = Calm-refl a
Calm-for_each f h (n ∷ nodes) a = Calm-trans (h n a) (Calm-for_each f h nodes _)

Calm-spawn_updates :
    (w : World) (node : Node) (profiles : List String) (a : App)
    → Calm a (spawn_updates w node profiles a)
unfolding spawn_updates
Calm-spawn_updates w node [] a = Calm-refl a
Calm-spawn_updates w node (p ∷ profiles) a =
    Calm-trans (Calm-spawn w node (update p) a)
      (Calm-spawn_updates w node profiles (spawn_probe w node (update p) a))

updated :
    {a b : App} (w : World) (node : Node) (profiles : List String)
    → Calm a b
    → Calm a (spawn_updates w node profiles b)
updated {b = b} w node profiles h = Calm-trans h (Calm-spawn_updates w node profiles b)

Calm-updates_for : (w : World) (node : Node) (a : App) → Calm a (refresh_updates_for_node w node a)
unfolding refresh_updates_for_node
Calm-updates_for w node a = search (updated, calm_rules)

pub Calm-updates : (w : World) (a : App) → Calm a (refresh_updates_for_selected w a)
unfolding refresh_updates_for_selected
Calm-updates w a = Calm-for_each _ (Calm-updates_for w) (target_nodes a) a

Calm-spawn_plans :
    (w : World) (node : Node) (site : BuildSite) (profiles : List String) (a : App)
    → Calm a (spawn_plans w node site profiles a)
unfolding spawn_plans
Calm-spawn_plans w node site [] a = Calm-refl a
Calm-spawn_plans w node site (p ∷ profiles) a =
    Calm-trans (Calm-spawn w node (build_plan p site) a)
      (Calm-spawn_plans w node site profiles (spawn_probe w node (build_plan p site) a))

planned :
    {a b : App} (w : World) (node : Node) (site : BuildSite) (profiles : List String)
    → Calm a b
    → Calm a (spawn_plans w node site profiles b)
planned {b = b} w node site profiles h = Calm-trans h (Calm-spawn_plans w node site profiles b)

Calm-plan_profiles :
    (w : World) (node : Node) (site : BuildSite) (profiles : List String) (a : App)
    → Calm a (plan_profiles w node site profiles a)
unfolding plan_profiles
Calm-plan_profiles w node site profiles a = search (planned, calm_rules)

pub Calm-plan_for :
    (w : World) (node : Node) (a : App) → Calm a (refresh_build_plan_for_node w node a)
unfolding refresh_build_plan_for_node
Calm-plan_for w node a =
    Calm-list a (filter_by (selects a.profile_sel) (ordered_profiles node)) _ _
      (Calm-push_log_tagged _ _ _ a) λ p profiles. Calm-plan_profiles w node _ (p ∷ profiles) a

pub Calm-plans : (w : World) (a : App) → Calm a (refresh_build_plan_for_selected w a)
unfolding refresh_build_plan_for_selected
Calm-plans w a = Calm-for_each _ (Calm-plan_for w) (target_nodes a) a

Calm-drift_for :
    (w : World) (site : BuildSite) (node : Node) (a : App)
    → Calm a (refresh_cache_drift_for_node w site node a)
unfolding refresh_cache_drift_for_node
Calm-drift_for w site node a = search (spawned, calm_rules)

pub Calm-drift : (w : World) (a : App) → Calm a (refresh_cache_drift_for_selected w a)
unfolding refresh_cache_drift_for_selected
Calm-drift w a = Calm-for_each _ (Calm-drift_for w (build_site a)) (target_nodes a) a

Calm-spawn_sizes :
    (w : World) (node : Node) (paths : List (String × String × String)) (a : App)
    → Calm a (spawn_sizes w node paths a)
unfolding spawn_sizes
Calm-spawn_sizes w node [] a = Calm-refl a
Calm-spawn_sizes w node ((p, l, r) ∷ rest) a =
    let b : App =
      update_status node.name
        (with_profile p λ ps. record ps { extra = record ps.extra { checking_size = true } }) a in
    let c : App = spawn_probe w node (size p l r) b in
    Calm-trans {b = c} (search (spawned, calm_rules)) (Calm-spawn_sizes w node rest c)

Calm-sizes_for : (w : World) (node : Node) (a : App) → Calm a (refresh_sizes_for_node w node a)
unfolding refresh_sizes_for_node
Calm-sizes_for w node a =
    let b : App = update_status node.name (λ s. s) a in
    Calm-trans {b = b} (search calm_rules) (
      Calm-list b (cached_paths (status_for b node.name) (keys node.profiles)) _ _
        (search calm_rules) λ p paths. tagged _ _ _ (Calm-spawn_sizes w node (p ∷ paths) b))

pub Calm-sizes : (w : World) (a : App) → Calm a (refresh_sizes_for_selected w a)
unfolding refresh_sizes_for_selected
Calm-sizes w a = Calm-for_each _ (Calm-sizes_for w) (target_nodes a) a

pub Calm-pkg_diff :
    (w : World) (node : Node) (profile local_path remote_path : String) (a : App)
    → Calm a (spawn_pkg_diff_for_profile w node profile local_path remote_path a)
unfolding spawn_pkg_diff_for_profile
Calm-pkg_diff w node profile local_path remote_path a = search (spawned, calm_rules)

pub Calm-cancel_probes : (w : World) (a : App) → Calm a (cancel_probes w a).1
unfolding cancel_probes emit
Calm-cancel_probes w a = ground arith

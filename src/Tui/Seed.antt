-- ===== src/Tui/Seed.antt =====
-- crates/deptui/src/app.rs: the paths to seed, and the build arguments that have no effect.
use deptui.Prelude.{
  ℕ, ℤ, negsuc, suc, ◌+◌, ◌-◌, String, Bool, true, false, ◌&&◌, not, Option, none, some, List, [],
  ◌∷◌, ◌++◌, map, length, ltb, ◌==◌, filter_by, if◌then◌else◌, and_then, map_option,
}
use deptui.Prelude.Text.{concat, decimal, member}
use deptui.Prelude.Map.{get}
use deptui.Prelude.Vectors.{is_nil}
use deptui.Deploy.{SeedPlan}
use deptui.Remote.Status.{
  HostStatus, SubstituterDrift, BuildSite, BuildPlan, local, remote, has_drift, build_plans,
  seedable_paths,
}
use deptui.Tui.{App}
use deptui.Tui.Log.{push_log_tagged}
use Prim.Native.Char.{code}

is_remote : BuildSite → Bool
is_remote local = false
is_remote remote = true

all_seedable : List (String × BuildPlan) → List String
unfolding seedable_paths
all_seedable [] = []
all_seedable ((name, p) ∷ plans) = seedable_paths p ++ all_seedable plans

-- The drift that a seeding would answer: a remote build's.
unfoldable pub seedable_drift : String → App → Option (HostStatus × SubstituterDrift)
unfolding get has_drift is_remote
seedable_drift node a = and_then (get node a.status) λ status.
    and_then status.cache_drift
      λ drift. if has_drift drift && is_remote drift.site then some (status, drift) else none

no_paths_message : String → SubstituterDrift → List (String × BuildPlan) → String
unfolding decimal
no_paths_message node drift [] = concat (
    "! "
    ∷ node
    ∷ " adds "
    ∷ decimal (length drift.added_substituters)
    ∷ " cache(s) but no build plan is known — press Shift+P to resolve the paths so they can be seeded"
    ∷ [])
no_paths_message node drift (p ∷ plans) =
    concat ("• " ∷ node ∷ ": nothing left to seed — the plan needs no new paths" ∷ [])

-- The plan, the message, and whether it is a warning.
unfoldable pub seed_outcome :
    String → HostStatus × SubstituterDrift → Option SeedPlan × String × Bool
unfolding all_seedable build_plans no_paths_message decimal
seed_outcome node (status, drift) = elim (all_seedable (build_plans status)) [
  | [] ↦ (none, no_paths_message node drift (build_plans status), is_nil (build_plans status))
  | p ∷ paths ↦ (
    some (record {
      substituters = drift.added_substituters;
      keys = drift.added_keys;
      paths = p ∷ paths;
    }),
    concat (
        "• "
        ∷ node
        ∷ ": seeding "
        ∷ decimal (length (p ∷ paths))
        ∷ " path(s) from "
        ∷ decimal (length drift.added_substituters)
        ∷ " newly-added cache(s) before the build"
        ∷ []),
    false,
  )
]

unfoldable pub log_seed :
    String → Option (Option SeedPlan × String × Bool) → App → Option SeedPlan × App
unfolding push_log_tagged
log_seed node none a = (none, a)
log_seed node (some (plan, text, is_err)) a = (plan, push_log_tagged text is_err (some node) a)

-- The plan, and the app with what was logged.
unfoldable pub seed_plan_for : String → App → Option SeedPlan × App
unfolding seedable_drift seed_outcome log_seed
seed_plan_for node a = log_seed node (map_option (seed_outcome node) (seedable_drift node a)) a

trim_dashes : String → String
trim_dashes String.[] = ""
trim_dashes (String.◌∷◌ c s) =
    let rest = trim_dashes s in
    if deptui.Prelude.same_number (code c) b'-' then rest else String.◌∷◌ c s

unfoldable pub substitution_build_args : List String
substitution_build_args =
    "substituters" ∷ "extra-substituters" ∷ "trusted-substituters" ∷ "trusted-public-keys"
    ∷ "extra-trusted-public-keys" ∷ []

unfoldable pub inert_remote_build_args : List String → List String
unfolding trim_dashes substitution_build_args
inert_remote_build_args args = filter_by (λ a. member (trim_dashes a) substitution_build_args) args

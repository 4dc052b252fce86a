-- ===== src/Tui/Announced.antt =====
-- crates/deptui/src/app.rs: what is logged before a deploy is started.
use deptui.Prelude.{ℕ, String, Bool, Option, none, some, List, [], ◌∷◌, map_option}
use deptui.Deploy.{Mode, ProfileSel, SeedPlan}
use deptui.Tui.{App}
use deptui.Tui.Queue.{report_build_args, report_args, warn_inert, announce_start}
use deptui.Tui.Seed.{seed_plan_for, seedable_drift, seed_outcome, log_seed}
use deptui.Tui.Calm.{Calm, Calm-refl, Calm-trans, Calm-push_log_tagged, tagged, calm_rules}

Calm-seed : (node : String) (a : App) → Calm a (seed_plan_for node a).1
unfolding seed_plan_for log_seed
Calm-seed node a = said (map_option (seed_outcome node) (seedable_drift node a))
  where
    said : (o : Option (Option SeedPlan × String × Bool)) → Calm a (log_seed node o a).1
    said none = Calm-refl a
    said (some (plan, text, is_err)) = Calm-push_log_tagged text is_err (some node) a

Calm-warn : (node : String) (inert : List String) (a : App) → Calm a (warn_inert node inert a)
unfolding warn_inert
Calm-warn node [] a = Calm-refl a
Calm-warn node (i ∷ inert) a = Calm-push_log_tagged _ _ _ a

warned :
    {a b : App} (node : String) (inert : List String) → Calm a b → Calm a (warn_inert node inert b)
warned {b = b} node inert h = Calm-trans h (Calm-warn node inert b)

Calm-args : (args : List String) (node : String) (a : App) → Calm a (report_args args node a)
unfolding report_args
Calm-args [] node a = Calm-refl a
Calm-args (x ∷ args) node a = search (warned, calm_rules)

-- What is logged before a deploy is started.
pub Calm-announced :
    (node : String) (mode : Mode) (profile : ProfileSel) (total done : ℕ) (a : App)
    → Calm a (
        announce_start node mode profile total done
          (report_build_args node (seed_plan_for node a).1))
unfolding announce_start report_build_args
Calm-announced node mode profile total done a =
    let b : App = (seed_plan_for node a).1 in
    tagged _ _ _ (Calm-trans {b = b} (Calm-seed node a) (Calm-args b.extra_build_args node b))

-- ===== src/Flake/Discover.antt =====
-- crates/deptui-core/src/flake.rs: discovery of `deploy.nodes` by `nix eval`.
use deptui.Prelude.{String, none, List, [], ◌∷◌, if◌then◌else◌}
use deptui.Prelude.Text.{concat}
use deptui.Prelude.Result.{err, with_context}
use deptui.Flake.{Node}
use deptui.Effects.{Env, Act, lift, map_result, output, ◌>>=◌}

-- The function that strips the nodes to what is read of them.
abbrev apply_text : String
apply_text =
    "nodes: builtins.mapAttrs (n: v: {\n      hostname = v.hostname;\n      sshUser = v.sshUser or null;\n      profilesOrder = v.profilesOrder or null;\n      profiles = builtins.mapAttrs (pn: pv: {\n        user = pv.user or null;\n        sshUser = pv.sshUser or null;\n      }) v.profiles;\n    }) nodes"

unfoldable pub discover : Env → String → Act (List Node)
unfolding ◌>>=◌ map_result output
discover env flake = do
  let target = concat (flake ∷ "#deploy.nodes" ∷ [])
  out ← map_result (with_context "spawning `nix eval`") (
      output env (record {
        program = "nix";
        args = "eval" ∷ "--json" ∷ "--no-warn-dirty" ∷ target ∷ "--apply" ∷ apply_text ∷ [];
        dir = none;
        vars = [];
      }))
  lift (
      if out.success
      then with_context "parsing `nix eval` JSON output" (env.parse_nodes out.stdout)
      else err (concat ("`nix eval " ∷ target ∷ "` failed:\n" ∷ out.stderr ∷ [])))

-- ===== src/Tui/Commands.antt =====
-- crates/deptui/src/app.rs: the toggles and the commands of the screen.
use deptui.Prelude.{
  ℕ, String, Bool, true, false, not, Option, none, some, List, [], ◌∷◌, if◌then◌else◌,
}
use deptui.Prelude.Text.{concat}
use deptui.Prelude.Vectors.{get_elem?}
use deptui.Deploy.{Toggles, switch, boot, dry_run}
use deptui.Tui.{App, World, overrides_menu}
use deptui.Tui.Log.{push_log}
use deptui.Tui.Agent.{open_agent_view}
use deptui.Tui.Probes.{
  refresh_reachability, refresh_updates_for_selected, refresh_sizes_for_selected,
  refresh_build_plan_for_selected, refresh_cache_drift_for_selected,
}
use deptui.Tui.Select.{mark_all, clear_marks, toggle_profile_system, toggle_profile_home}
use deptui.Tui.Queue.{request_deploy}
use deptui.Tui.Cancel.{cancel_deploy}
use deptui.Tui.Modal.{set_input}

pub data Command : Type 0 where
  refresh updates size_diff build_plan cache_drift mark agent profile_system profile_home : Command
  deploy_switch deploy_boot deploy_dry cancel override : Command

unfoldable pub command_table : List Command
command_table =
    refresh ∷ updates ∷ size_diff ∷ build_plan ∷ cache_drift ∷ mark ∷ profile_system ∷ profile_home
    ∷ deploy_switch ∷ deploy_boot ∷ deploy_dry ∷ cancel ∷ override ∷ agent ∷ []

-- A row of the toggle table: its name, what is said when it turns on, and its field.
pub record ToggleDef : Type 0 where
  pub name : String
  pub on_hint : Option String
  pub get : Toggles → Bool
  pub flip : Toggles → Toggles

unfoldable pub toggle_table : List ToggleDef
toggle_table =
    record {
      name = "skip-checks";
      on_hint = none;
      get = λ t. t.skip_checks;
      flip = λ t. record t { skip_checks = not t.skip_checks };
    }
    ∷ record {
      name = "magic-rollback";
      on_hint = none;
      get = λ t. t.magic_rollback;
      flip = λ t. record t { magic_rollback = not t.magic_rollback };
    }
    ∷ record {
      name = "auto-rollback";
      on_hint = none;
      get = λ t. t.auto_rollback;
      flip = λ t. record t { auto_rollback = not t.auto_rollback };
    }
    ∷ record {
      name = "remote-build";
      on_hint = none;
      get = λ t. t.remote_build;
      flip = λ t. record t { remote_build = not t.remote_build };
    }
    ∷ record {
      name = "interactive-sudo";
      on_hint = some "  interactive-sudo: TUI will prompt securely when sudo asks for a password";
      get = λ t. t.interactive_sudo;
      flip = λ t. record t { interactive_sudo = not t.interactive_sudo };
    }
    ∷ []

unfoldable pub log_toggle : String → Bool → App → App
log_toggle name value a =
    push_log (concat ("• " ∷ name ∷ " = " ∷ (if value then "on" else "off") ∷ [])) false a

unfoldable pub hint : Bool → Option String → App → App
hint true (some text) a = push_log text false a
hint true none a = a
hint false o a = a

unfoldable pub activate_toggle : ℕ → App → App
activate_toggle idx a = elim (get_elem? toggle_table idx) [
  | none ↦ a
  | some def ↦
      let flipped = def.flip a.toggles in
      hint (def.get flipped) def.on_hint
        (log_toggle def.name (def.get flipped) (record a { toggles = flipped }))
]

unfoldable pub toggle_all_marks : App → App
toggle_all_marks a = elim a.marked [ [] ↦ mark_all a | _ ∷ _ ↦ clear_marks a ]

unfoldable pub run_command : World → Command → App → App
run_command w refresh a = refresh_reachability w a
run_command w updates a = refresh_updates_for_selected w a
run_command w size_diff a = refresh_sizes_for_selected w a
run_command w build_plan a = refresh_build_plan_for_selected w a
run_command w cache_drift a = refresh_cache_drift_for_selected w a
run_command w mark a = toggle_all_marks a
run_command w agent a = open_agent_view w a
run_command w profile_system a = toggle_profile_system a
run_command w profile_home a = toggle_profile_home a
run_command w deploy_switch a = request_deploy switch a
run_command w deploy_boot a = request_deploy boot a
run_command w deploy_dry a = request_deploy dry_run a
run_command w cancel a = cancel_deploy w a
run_command w override a = set_input overrides_menu a

unfoldable pub activate_command : World → ℕ → App → App
activate_command w idx a = elim (get_elem? command_table idx) [
  | none ↦ a
  | some c ↦ run_command w c a
]

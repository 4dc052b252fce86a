-- ===== src/Tui/Sound/Commands.antt =====
-- crates/deptui/src/app.rs: the toggles and the commands, for the invariant.
use deptui.Prelude.{ℕ, refl, String, Bool, true, false, Option, none, some, arith}
use deptui.Prelude.Vectors.{get_elem?}
use deptui.Deploy.{switch, boot, dry_run}
use deptui.Tui.{App, World}
use deptui.Tui.Commands
use deptui.Tui.Commands.{
  ToggleDef, toggle_table, log_toggle, hint, activate_toggle, toggle_all_marks, run_command,
  activate_command, command_table,
}
use deptui.Tui.Calm.{Calm, Calm-refl, Calm-trans, Calm-option, Calm-list, Calm-push_log}
use deptui.Tui.Calm.Cursors.{
  Calm-mark_all, Calm-clear_marks, Calm-profile_system, Calm-profile_home,
}
use deptui.Tui.Calm.Checks.{Calm-reachability, Calm-updates, Calm-plans, Calm-drift, Calm-sizes}
use deptui.Tui.Calm.Views.{Calm-open}
use deptui.Tui.Calm.Modals.{moded}
use deptui.Tui.Sound.{Tame, Tame-Calm, Tame-request_deploy, Tame-cancel_deploy}

Calm-log_toggle : (name : String) (value : Bool) (a : App) → Calm a (log_toggle name value a)
unfolding log_toggle
Calm-log_toggle name value a = Calm-push_log _ _ a

Calm-hint : (on : Bool) (o : Option String) (a : App) → Calm a (hint on o a)
unfolding hint
Calm-hint true (some text) a = Calm-push_log _ _ a
Calm-hint true none a = Calm-refl a
Calm-hint false o a = Calm-refl a

pub Calm-toggle : (idx : ℕ) (a : App) → Calm a (activate_toggle idx a)
unfolding activate_toggle
Calm-toggle idx a = Calm-option a (get_elem? toggle_table idx) _ _ (Calm-refl a) λ def.
    let b : App = record a { toggles = def.flip a.toggles } in
    let c : App = log_toggle def.name (def.get (def.flip a.toggles)) b in
    Calm-trans {b = b} (ground arith)
      (Calm-trans {b = c} (Calm-log_toggle def.name _ b) (Calm-hint _ def.on_hint c))

Calm-all_marks : (a : App) → Calm a (toggle_all_marks a)
unfolding toggle_all_marks
Calm-all_marks a = Calm-list a a.marked _ _ (Calm-mark_all a) λ m rest. Calm-clear_marks a

pub Tame-command : (w : World) (c : Commands.Command) (a : App) → Tame a (run_command w c a)
unfolding run_command
Tame-command w Commands.refresh a = Tame-Calm (Calm-reachability w a)
Tame-command w Commands.updates a = Tame-Calm (Calm-updates w a)
Tame-command w Commands.size_diff a = Tame-Calm (Calm-sizes w a)
Tame-command w Commands.build_plan a = Tame-Calm (Calm-plans w a)
Tame-command w Commands.cache_drift a = Tame-Calm (Calm-drift w a)
Tame-command w Commands.mark a = Tame-Calm (Calm-all_marks a)
Tame-command w Commands.agent a = Tame-Calm (Calm-open w a)
Tame-command w Commands.profile_system a = Tame-Calm (Calm-profile_system a)
Tame-command w Commands.profile_home a = Tame-Calm (Calm-profile_home a)
Tame-command w Commands.deploy_switch a = Tame-request_deploy switch a
Tame-command w Commands.deploy_boot a = Tame-request_deploy boot a
Tame-command w Commands.deploy_dry a = Tame-request_deploy dry_run a
Tame-command w Commands.cancel a = Tame-cancel_deploy w a
Tame-command w Commands.override a = Tame-Calm (moded _ refl (Calm-refl a))

pub Tame-refl : (a : App) → Tame a a
Tame-refl a = Tame-Calm (Calm-refl a)

pub Tame-activate : (w : World) (idx : ℕ) (a : App) → Tame a (activate_command w idx a)
unfolding activate_command
Tame-activate w idx a = found (get_elem? command_table idx)
  where
    found :
        (o : Option Commands.Command) → Tame a (elim o [ none ↦ a | some c ↦ run_command w c a ])
    found none = Tame-refl a
    found (some c) = Tame-command w c a

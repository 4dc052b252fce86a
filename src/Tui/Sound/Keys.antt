-- ===== src/Tui/Sound/Keys.antt =====
-- crates/deptui/src/app.rs: the keys of the main screen, for the invariant.
use deptui.Prelude.{
  pos, negsuc, Bool, true, false, Option, none, some, List, [], ◌∷◌, arith, All, if◌then◌else◌,
}
use deptui.Tui.{App, FocusPane, World, toggles, hosts, job_log, commands}
use deptui.Tui.Joblog.{VisualSel}
use deptui.Tui.Modal.{Key, choose}
use deptui.Tui.Commands
use deptui.Tui.Keys.{
  shift_arms, global_arms, visual_arms, job_log_arms, hosts_arms, toggles_arms, commands_arms,
  action_arms, handle_action, handle_job_log, handle_pane, handle_key_normal, is_shifted,
}
use deptui.Tui.Commands.{
  ToggleDef, toggle_table, log_toggle, hint, activate_toggle, toggle_all_marks, run_command,
  activate_command, command_table,
}
use deptui.Tui.Calm.{Calm, choose-All, ◌▹◌}
use deptui.Tui.Calm.Cursors.{
  Calm-move_toggle_index, Calm-move_command_index, Calm-move_selection, Calm-toggle_mark_selected,
}
use deptui.Tui.Sound.{Tame, Tame-Calm, Tame-trans}
use deptui.Tui.Sound.Commands.{Calm-toggle, Tame-activate, Tame-command, Tame-refl}
use deptui.Tui.Sound.Arms.{Calm-global, Calm-job_log, Calm-shift, Calm-visual}

Tame-action : (w : World) (key : Key) (a : App) → Tame a (handle_action w key a)
unfolding handle_action action_arms
Tame-action w key a =
    choose-All (Tame a) _ a
      (Tame-command w Commands.refresh a
        ▹ Tame-command w Commands.updates a
        ▹ Tame-command w Commands.agent a
        ▹ Tame-command w Commands.profile_system a
        ▹ Tame-command w Commands.profile_home a
        ▹ Tame-command w Commands.deploy_switch a
        ▹ Tame-command w Commands.deploy_boot a
        ▹ Tame-command w Commands.deploy_dry a
        ▹ Tame-command w Commands.cancel a
        ▹ Tame-Calm (Calm-toggle 0 a)
        ▹ Tame-Calm (Calm-toggle 1 a)
        ▹ Tame-Calm (Calm-toggle 2 a)
        ▹ Tame-Calm (Calm-toggle 3 a)
        ▹ Tame-Calm (Calm-toggle 4 a)
        ▹ Tame-command w Commands.override a
        ▹ tt)
      (Tame-refl a)

-- Calm arms before a default that is tame.
Tame-arms :
    (a : App) (arms : List (Bool × App)) (d : App)
    → All (λ arm. Calm a arm.1) arms
    → Tame a d
    → Tame a (choose arms d)
Tame-arms a arms d h hd = choose-All (Tame a) arms d (tamed arms h) hd
  where
    tamed : (xs : List (Bool × App)) → All (λ arm. Calm a arm.1) xs → All (λ arm. Tame a arm.1) xs
    tamed [] hs = tt
    tamed (x ∷ xs) hs = (Tame-Calm hs.0, tamed xs hs.1)

Tame-job_log : (w : World) (key : Key) (a : App) → Tame a (handle_job_log w key a)
unfolding handle_job_log
Tame-job_log w key a = selecting a.visual_sel
  where
    b : App
    b = record a { visual_sel = none }

    dropped : Calm a b
    dropped = ground arith

    selecting :
        (o : Option VisualSel)
        → Tame a (elim o [
          | none ↦ choose (job_log_arms key a) (handle_action w key a)
          | some sel ↦
              choose (visual_arms w key a) (choose (job_log_arms key b) (handle_action w key b))
        ])
    selecting none = Tame-arms a _ _ (Calm-job_log key a) (Tame-action w key a)
    selecting (some sel) = Tame-arms a _ _ (Calm-visual w key a) (
        Tame-trans (Tame-Calm dropped) (Tame-arms b _ _ (Calm-job_log key b) (Tame-action w key b)))

Tame-pane : (w : World) (key : Key) (a : App) → Tame a (handle_pane w key a)
unfolding handle_pane hosts_arms toggles_arms commands_arms
Tame-pane w key a = focused a.focus
  where
    focused :
        (f : FocusPane)
        → Tame a (elim f [
          | hosts ↦ choose (hosts_arms key a) (handle_action w key a)
          | job_log ↦ handle_job_log w key a
          | toggles ↦ choose (toggles_arms key a) (handle_action w key a)
          | commands ↦ choose (commands_arms w key a) (handle_action w key a)
        ])
    focused hosts =
        Tame-arms a _ _
          (Calm-move_selection (negsuc 0) a
            ▹ Calm-move_selection (pos 1) a
            ▹ Calm-toggle_mark_selected a
            ▹ tt)
          (Tame-action w key a)
    focused job_log = Tame-job_log w key a
    focused toggles =
        Tame-arms a _ _
          (Calm-move_toggle_index (negsuc 0) a
            ▹ Calm-move_toggle_index (pos 1) a
            ▹ Calm-toggle a.toggle_index a
            ▹ tt)
          (Tame-action w key a)
    focused commands =
        choose-All (Tame a) _ _
          (Tame-Calm (Calm-move_command_index (negsuc 0) a)
            ▹ Tame-Calm (Calm-move_command_index (pos 1) a)
            ▹ Tame-activate w a.command_index a
            ▹ tt)
          (Tame-action w key a)

pub Tame-normal : (w : World) (key : Key) (a : App) → Tame a (handle_key_normal w key a)
unfolding handle_key_normal
Tame-normal w key a = shifted (is_shifted key)
  where
    rest : Tame a (choose (global_arms w key a) (handle_pane w key a))
    rest = Tame-arms a _ _ (Calm-global w key a) (Tame-pane w key a)

    shifted :
        (b : Bool)
        → Tame a (
            if b
            then choose (shift_arms w key a) (choose (global_arms w key a) (handle_pane w key a))
            else choose (global_arms w key a) (handle_pane w key a))
    shifted true = Tame-arms a _ _ (Calm-shift w key a) rest
    shifted false = rest

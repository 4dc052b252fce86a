-- ===== src/Tui/Sound/Arms.antt =====
-- crates/deptui/src/app.rs: the arms of the main screen's keys, for the invariant.
use deptui.Prelude.{pos, negsuc, refl, none, arith, All}
use deptui.Tui.{App, World, toggles, hosts, job_log, commands}
use deptui.Tui.Joblog.{VisualMode, char, line}
use deptui.Tui.Select.{next_pane, prev_pane, pane_left, pane_right, pane_up, pane_down, set_focus}
use deptui.Tui.Modal.{Key}
use deptui.Tui.Keys.{
  shift_arms, ask_quit, step_back, start_visual, global_arms, visual_arms, job_log_arms,
}
use deptui.Tui.Calm.{Calm, Calm-refl, Calm-trans, Calm-if, ◌▹◌}
use deptui.Tui.Calm.Cursors.{
  Calm-set_focus, Calm-advance_match, Calm-clear_log_search, Calm-mark_all, Calm-clear_marks,
  Calm-scroll_job_log, Calm-enter_visual_mode, Calm-visual_move, Calm-jump_to_top,
  Calm-snap_to_tail, Calm-yank_visual,
}
use deptui.Tui.Calm.Checks.{Calm-plans, Calm-drift, Calm-sizes}
use deptui.Tui.Calm.Modals.{moded}

pub Calm-shift : (w : World) (key : Key) (a : App) → All (λ arm. Calm a arm.1) (shift_arms w key a)
unfolding shift_arms
Calm-shift w key a =
    Calm-set_focus (pane_left a.focus) a
    ▹ Calm-set_focus (pane_right a.focus) a
    ▹ Calm-set_focus (pane_up a.focus) a
    ▹ Calm-set_focus (pane_down a.focus) a
    ▹ Calm-mark_all a
    ▹ Calm-clear_marks a
    ▹ Calm-sizes w a
    ▹ Calm-drift w a
    ▹ Calm-plans w a
    ▹ Calm-snap_to_tail a
    ▹ tt

pub Calm-ask_quit : (a : App) → Calm a (ask_quit a)
unfolding ask_quit
Calm-ask_quit a = moded _ refl (Calm-refl a)

Calm-step_back : (a : App) → Calm a (step_back a)
unfolding step_back
Calm-step_back a =
    Calm-if _ a (record a { visual_sel = none }) _ (ground arith)
      (Calm-if _ a _ _ (Calm-clear_log_search a) (Calm-refl a))

Calm-start_visual : (mode : VisualMode) (a : App) → Calm a (start_visual mode a)
unfolding start_visual
Calm-start_visual mode a =
    Calm-trans (Calm-set_focus job_log a) (Calm-enter_visual_mode mode (set_focus job_log a))

pub Calm-global :
    (w : World) (key : Key) (a : App) → All (λ arm. Calm a arm.1) (global_arms w key a)
unfolding global_arms
Calm-global w key a =
    Calm-set_focus (next_pane a.focus) a
    ▹ Calm-set_focus (prev_pane a.focus) a
    ▹ ground arith
    ▹ Calm-ask_quit a
    ▹ Calm-step_back a
    ▹ Calm-jump_to_top a
    ▹ Calm-start_visual char a
    ▹ Calm-start_visual line a
    ▹ Calm-set_focus hosts a
    ▹ Calm-set_focus job_log a
    ▹ Calm-set_focus toggles a
    ▹ Calm-set_focus commands a
    ▹ moded _ refl (Calm-refl a)
    ▹ Calm-advance_match (pos 1) a
    ▹ Calm-advance_match (negsuc 0) a
    ▹ tt

pub Calm-visual :
    (w : World) (key : Key) (a : App) → All (λ arm. Calm a arm.1) (visual_arms w key a)
unfolding visual_arms
Calm-visual w key a =
    Calm-visual_move (negsuc 0) (pos 0) a
    ▹ Calm-visual_move (pos 1) (pos 0) a
    ▹ Calm-visual_move (pos 0) (negsuc 0) a
    ▹ Calm-visual_move (pos 0) (pos 1) a
    ▹ Calm-yank_visual w a
    ▹ tt

pub Calm-job_log : (key : Key) (a : App) → All (λ arm. Calm a arm.1) (job_log_arms key a)
unfolding job_log_arms
Calm-job_log key a =
    Calm-enter_visual_mode char a
    ▹ Calm-enter_visual_mode line a
    ▹ Calm-scroll_job_log (pos 1) a
    ▹ Calm-scroll_job_log (negsuc 0) a
    ▹ tt

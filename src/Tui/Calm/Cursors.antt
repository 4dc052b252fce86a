-- ===== src/Tui/Calm/Cursors.antt =====
-- crates/deptui/src/app.rs: the moves of the focus, the cursors, the marks and the selection.
use deptui.Prelude.{ℕ, ℤ, zero, suc, ◌<◌, String, Bool, true, false, none, ◌∷◌, length, arith, ◌==◌}
use deptui.Prelude.Vectors.{step_index, step_index-lt, position}
use deptui.Deploy.{ProfileSel, all, system, home}
use deptui.Tui.{App, FocusPane, World, yanked, emit, selected_node}
use deptui.Tui.Joblog.{VisualMode}
use deptui.Tui.Search.{
  scroll_to_match, advance_match, search_job_log_jump_initial, clear_log_search,
  filtered_for_job_log,
}
use deptui.Tui.Select.{
  set_focus, move_toggle_index, move_command_index, skip_hidden, move_selection, toggle_mark,
  toggle_mark_selected, mark_all, clear_marks, toggle_profile_system, toggle_profile_home,
  toggle_count, signum, command_count,
}
use deptui.Tui.Visual.{
  scroll_job_log, enter_visual_mode, visual_move_cursor, move_cursor, yank_visual, report_yank,
  jump_to_top, snap_to_tail, copied_text,
}
use deptui.Tui.Calm.{
  Calm, Calm-refl, Calm-trans, Calm-push_log, Calm-push_log_tagged, Calm-option, Calm-list,
}

pub Calm-set_focus : (f : FocusPane) (a : App) → Calm a (set_focus f a)
unfolding set_focus
Calm-set_focus f a = ground arith

pub Calm-scroll_to_match : (a : App) → Calm a (scroll_to_match a)
unfolding scroll_to_match
Calm-scroll_to_match a = ground arith

pub Calm-advance_match : (delta : ℤ) (a : App) → Calm a (advance_match delta a)
unfolding advance_match scroll_to_match
Calm-advance_match delta a = ground arith

pub Calm-jump_initial : (a : App) → Calm a (search_job_log_jump_initial a)
unfolding search_job_log_jump_initial scroll_to_match
Calm-jump_initial a = ground arith

pub Calm-clear_log_search : (a : App) → Calm a (clear_log_search a)
unfolding clear_log_search
Calm-clear_log_search a = ground arith

pub Calm-move_toggle_index : (delta : ℤ) (a : App) → Calm a (move_toggle_index delta a)
unfolding move_toggle_index toggle_count
Calm-move_toggle_index delta a = ground (arith, step_index-lt a.toggle_index delta 5 (omega arith))

skip_hidden-lt :
    (f : ℕ) (a : App) (delta : ℤ) (next : ℕ) → next < 14 → skip_hidden f a delta next < 14
unfolding skip_hidden command_count
skip_hidden-lt zero a delta next h = h
skip_hidden-lt (suc f) a delta next h = ground (
  arith,
  skip_hidden-lt f a delta (step_index next (signum delta) 14)
      (step_index-lt next (signum delta) 14 (omega arith)),
)

pub Calm-move_command_index : (delta : ℤ) (a : App) → Calm a (move_command_index delta a)
unfolding move_command_index command_count
Calm-move_command_index delta a = ground (
  arith,
  skip_hidden-lt 14 a delta (step_index a.command_index delta 14)
      (step_index-lt a.command_index delta 14 (omega arith)),
)

pub Calm-move_selection : (delta : ℤ) (a : App) → Calm a (move_selection delta a)
unfolding move_selection
Calm-move_selection delta a = ground (arith, step_index-lt a.selected delta (length a.nodes))

pub Calm-toggle_mark : (name : String) (a : App) → Calm a (toggle_mark name a)
unfolding toggle_mark
Calm-toggle_mark name a =
    Calm-option a (position (λ n. n == name) a.marked) _ _
      (Calm-trans (ground arith) (Calm-push_log_tagged _ _ _ _))
      λ idx. Calm-trans (ground arith) (Calm-push_log_tagged _ _ _ _)

pub Calm-mark_all : (a : App) → Calm a (mark_all a)
unfolding mark_all
Calm-mark_all a = Calm-trans (ground arith) (Calm-push_log _ _ _)

pub Calm-clear_marks : (a : App) → Calm a (clear_marks a)
unfolding clear_marks
Calm-clear_marks a =
    Calm-list a a.marked _ _ (Calm-refl a) λ m rest. Calm-trans (ground arith) (Calm-push_log _ _ _)

pub Calm-scroll_job_log : (delta : ℤ) (a : App) → Calm a (scroll_job_log delta a)
unfolding scroll_job_log
Calm-scroll_job_log delta a = ground arith

pub Calm-enter_visual_mode : (mode : VisualMode) (a : App) → Calm a (enter_visual_mode mode a)
unfolding enter_visual_mode
Calm-enter_visual_mode mode a = ground arith

pub Calm-visual_move : (dl dc : ℤ) (a : App) → Calm a (visual_move_cursor dl dc a)
unfolding visual_move_cursor move_cursor
Calm-visual_move dl dc a = ground arith

pub Calm-jump_to_top : (a : App) → Calm a (jump_to_top a)
unfolding jump_to_top
Calm-jump_to_top a = ground arith

pub Calm-snap_to_tail : (a : App) → Calm a (snap_to_tail a)
unfolding snap_to_tail
Calm-snap_to_tail a = ground arith

pub Calm-toggle_mark_selected : (a : App) → Calm a (toggle_mark_selected a)
unfolding toggle_mark_selected
Calm-toggle_mark_selected a =
    Calm-option a (selected_node a) _ _ (Calm-refl a) λ n. Calm-toggle_mark n.name a

Calm-selection :
    (a x y z : App) (p : ProfileSel)
    → Calm a x
    → Calm a y
    → Calm a z
    → Calm a (elim p [ all ↦ x | system ↦ y | home ↦ z ])
Calm-selection a x y z all hx hy hz = hx
Calm-selection a x y z system hx hy hz = hy
Calm-selection a x y z home hx hy hz = hz

pub Calm-profile_system : (a : App) → Calm a (toggle_profile_system a)
unfolding toggle_profile_system
Calm-profile_system a =
    Calm-selection a (record a { profile_sel = home }) _ (record a { profile_sel = all })
      a.profile_sel (ground arith) (Calm-push_log _ _ a) (ground arith)

pub Calm-profile_home : (a : App) → Calm a (toggle_profile_home a)
unfolding toggle_profile_home
Calm-profile_home a =
    Calm-selection a (record a { profile_sel = system }) (record a { profile_sel = all }) _
      a.profile_sel (ground arith) (ground arith) (Calm-push_log _ _ a)

Calm-report_yank : (b : Bool) (total : ℕ) (a : App) → Calm a (report_yank b total a)
unfolding report_yank
Calm-report_yank true total a = Calm-push_log _ _ _
Calm-report_yank false total a = Calm-push_log _ _ _

pub Calm-yank_visual : (w : World) (a : App) → Calm a (yank_visual w a)
unfolding yank_visual emit
Calm-yank_visual w a = Calm-option a a.visual_sel _ _ (Calm-refl a) λ sel.
    Calm-list a (filtered_for_job_log a) _ _ (ground arith) λ i filtered.
      let (total, text) = copied_text sel a.log (i ∷ filtered) in
      Calm-option a text _ _ (ground arith) λ t.
        Calm-trans {b = emit (yanked t) (record a { visual_sel = none })} (ground arith)
          (Calm-report_yank (w.clipboard a.effects t) total _)

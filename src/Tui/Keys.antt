-- ===== src/Tui/Keys.antt =====
-- crates/deptui/src/app.rs: the keys of the main screen, the toggles and the command buttons.
use Prim.Native.Char.{Char, code}
use deptui.Prelude.{
  pos, negsuc, Bool, true, false, ◌||◌, ◌&&◌, not, Option, none, some, List, [], ◌∷◌, leb,
  if◌then◌else◌, is_some,
}
use deptui.Tui.{App, World, toggles, hosts, job_log, commands, confirm_quit, search_log}
use deptui.Tui.Joblog.{VisualMode, VisualSel, char, line}
use deptui.Tui.Probes.{
  refresh_sizes_for_selected, refresh_build_plan_for_selected, refresh_cache_drift_for_selected,
}
use deptui.Tui.Search.{advance_match, clear_log_search}
use deptui.Tui.Select.{
  next_pane, prev_pane, pane_left, pane_right, pane_up, pane_down, set_focus, move_toggle_index,
  move_command_index, move_selection, toggle_mark_selected, mark_all, clear_marks,
}
use deptui.Tui.Visual.{
  scroll_job_log, enter_visual_mode, visual_move_cursor, yank_visual, jump_to_top, snap_to_tail,
}
use deptui.Tui.Modal.{Key, KeyCode, choose, is_key, is_char, set_input}
use deptui.Tui.Commands.{
  activate_command, activate_toggle, agent, cancel, deploy_boot, deploy_dry, deploy_switch,
  override, profile_home, profile_system, refresh, run_command, updates,
}

-- Held shift, or an upper-case letter, which some terminals report without it.
unfoldable pub is_shifted : Key → Bool
is_shifted key =
    key.shift
    || elim key.code [ KeyCode.char c ↦ leb b'A' (code c) && leb (code c) b'Z' | _ ↦ false ]

-- The arms of the layers, each of which returns. The letters in both cases count as one key.
abbrev either_case : Char → Char → Key → Bool
either_case upper lower key = is_char upper key.code || is_char lower key.code

unfoldable pub shift_arms : World → Key → App → List (Bool × App)
shift_arms w key a =
    (either_case "H" "h" key || is_key KeyCode.left key.code, set_focus (pane_left a.focus) a)
    ∷ (either_case "L" "l" key || is_key KeyCode.right key.code, set_focus (pane_right a.focus) a)
    ∷ (either_case "K" "k" key || is_key KeyCode.up key.code, set_focus (pane_up a.focus) a)
    ∷ (either_case "J" "j" key || is_key KeyCode.down key.code, set_focus (pane_down a.focus) a)
    ∷ (is_char "A" key.code, mark_all a)
    ∷ (is_char "X" key.code, clear_marks a)
    ∷ (is_char "U" key.code, refresh_sizes_for_selected w a)
    ∷ (is_char "C" key.code, refresh_cache_drift_for_selected w a)
    ∷ (is_char "P" key.code, refresh_build_plan_for_selected w a)
    ∷ (is_char "G" key.code, snap_to_tail a)
    ∷ []

unfoldable pub ask_quit : App → App
ask_quit a = set_input (confirm_quit (is_some a.deploy)) a

-- One step back: the selection, and then the search.
unfoldable pub step_back : App → App
step_back a =
    if is_some a.visual_sel
    then record a { visual_sel = none }
    else if is_some a.log_search
    then clear_log_search a
    else a

unfoldable pub start_visual : VisualMode → App → App
start_visual mode a = enter_visual_mode mode (set_focus job_log a)

unfoldable pub global_arms : World → Key → App → List (Bool × App)
global_arms w key a =
    (is_key KeyCode.tab key.code, set_focus (next_pane a.focus) a)
    ∷ (is_key KeyCode.back_tab key.code, set_focus (prev_pane a.focus) a)
    ∷ (is_char "?" key.code, record a { show_help = true; help_scroll = 0 })
    ∷ (is_char "q" key.code, ask_quit a)
    ∷ (is_key KeyCode.esc key.code, step_back a)
    ∷ (is_char "g" key.code, jump_to_top a)
    ∷ (is_char "v" key.code, start_visual char a)
    ∷ (is_char "V" key.code, start_visual line a)
    ∷ (is_char "f" key.code, set_focus hosts a)
    ∷ (is_char "p" key.code, set_focus job_log a)
    ∷ (is_char "t" key.code, set_focus toggles a)
    ∷ (is_char "c" key.code, set_focus commands a)
    ∷ (is_char "/" key.code && not (is_shifted key), set_input (search_log "") a)
    ∷ (
      is_some a.log_search && is_char "n" key.code && not (is_shifted key),
      advance_match (pos 1) a,
    )
    ∷ (is_some a.log_search && is_char "N" key.code, advance_match (negsuc 0) a)
    ∷ []

unfoldable pub is_char_mode : Option VisualSel → Bool
is_char_mode none = false
is_char_mode (some sel) = elim sel.mode [ char ↦ true | line ↦ false ]

unfoldable pub visual_arms : World → Key → App → List (Bool × App)
visual_arms w key a =
    (is_key KeyCode.up key.code || is_char "k" key.code, visual_move_cursor (negsuc 0) (pos 0) a)
    ∷ (is_key KeyCode.down key.code || is_char "j" key.code, visual_move_cursor (pos 1) (pos 0) a)
    ∷ (
      (is_key KeyCode.left key.code || is_char "h" key.code) && is_char_mode a.visual_sel,
      visual_move_cursor (pos 0) (negsuc 0) a,
    )
    ∷ (
      (is_key KeyCode.right key.code || is_char "l" key.code) && is_char_mode a.visual_sel,
      visual_move_cursor (pos 0) (pos 1) a,
    )
    ∷ (is_char "y" key.code, yank_visual w a)
    ∷ []

unfoldable pub job_log_arms : Key → App → List (Bool × App)
job_log_arms key a =
    (is_char "v" key.code, enter_visual_mode char a)
    ∷ (is_char "V" key.code, enter_visual_mode line a)
    ∷ (is_key KeyCode.up key.code || is_char "k" key.code, scroll_job_log (pos 1) a)
    ∷ (is_key KeyCode.down key.code || is_char "j" key.code, scroll_job_log (negsuc 0) a)
    ∷ []

unfoldable pub hosts_arms : Key → App → List (Bool × App)
hosts_arms key a =
    (is_key KeyCode.up key.code || is_char "k" key.code, move_selection (negsuc 0) a)
    ∷ (is_key KeyCode.down key.code || is_char "j" key.code, move_selection (pos 1) a)
    ∷ (is_char " " key.code, toggle_mark_selected a)
    ∷ []

unfoldable pub toggles_arms : Key → App → List (Bool × App)
toggles_arms key a =
    (is_key KeyCode.left key.code || is_char "h" key.code, move_toggle_index (negsuc 0) a)
    ∷ (is_key KeyCode.right key.code || is_char "l" key.code, move_toggle_index (pos 1) a)
    ∷ (is_key KeyCode.enter key.code || is_char " " key.code, activate_toggle a.toggle_index a)
    ∷ []

unfoldable pub commands_arms : World → Key → App → List (Bool × App)
commands_arms w key a =
    (is_key KeyCode.left key.code || is_char "h" key.code, move_command_index (negsuc 0) a)
    ∷ (is_key KeyCode.right key.code || is_char "l" key.code, move_command_index (pos 1) a)
    ∷ (is_key KeyCode.enter key.code || is_char " " key.code, activate_command w a.command_index a)
    ∷ []

unfoldable pub action_arms : World → Key → App → List (Bool × App)
action_arms w key a =
    (is_char "r" key.code, run_command w refresh a)
    ∷ (is_char "u" key.code, run_command w updates a)
    ∷ (is_char "a" key.code, run_command w agent a)
    ∷ (is_char "s" key.code, run_command w profile_system a)
    ∷ (is_char "h" key.code, run_command w profile_home a)
    ∷ (is_char "S" key.code, run_command w deploy_switch a)
    ∷ (is_char "B" key.code, run_command w deploy_boot a)
    ∷ (is_char "D" key.code, run_command w deploy_dry a)
    ∷ (is_char "x" key.code, run_command w cancel a)
    ∷ (is_char "1" key.code, activate_toggle 0 a)
    ∷ (is_char "2" key.code, activate_toggle 1 a)
    ∷ (is_char "3" key.code, activate_toggle 2 a)
    ∷ (is_char "4" key.code, activate_toggle 3 a)
    ∷ (is_char "5" key.code, activate_toggle 4 a)
    ∷ (is_char "o" key.code, run_command w override a)
    ∷ []

unfoldable pub handle_action : World → Key → App → App
handle_action w key a = choose (action_arms w key a) a

-- A key that a selection does not know ends it, and is then read as any other.
unfoldable pub handle_job_log : World → Key → App → App
handle_job_log w key a = elim a.visual_sel [
  | none ↦ choose (job_log_arms key a) (handle_action w key a)
  | some sel ↦
      let b = record a { visual_sel = none } in
      choose (visual_arms w key a) (choose (job_log_arms key b) (handle_action w key b))
]

unfoldable pub handle_pane : World → Key → App → App
handle_pane w key a = elim a.focus [
  | hosts ↦ choose (hosts_arms key a) (handle_action w key a)
  | job_log ↦ handle_job_log w key a
  | toggles ↦ choose (toggles_arms key a) (handle_action w key a)
  | commands ↦ choose (commands_arms w key a) (handle_action w key a)
]

unfoldable pub handle_key_normal : World → Key → App → App
handle_key_normal w key a =
    let rest = choose (global_arms w key a) (handle_pane w key a) in
    if is_shifted key then choose (shift_arms w key a) rest else rest

-- ===== src/Tui/Select.antt =====
-- crates/deptui/src/app.rs: the focus, the cursors, the marks and the visual selection.
use deptui.Prelude.{
  ℕ, ℤ, pos, negsuc, zero, suc, String, Bool, true, false, ◌&&◌, not, none, some, [], ◌∷◌, ◌++◌,
  ◌==◌, map, length, same_number, if◌then◌else◌,
}
use deptui.Prelude.Text.{concat, decimal}
use deptui.Prelude.Vectors.{position, remove_at, step_index}
use deptui.Deploy.{ProfileSel, all, system, home}
use deptui.Tui.{App, FocusPane, toggles, hosts, job_log, commands, selected_node}
use deptui.Tui.Log.{push_log, push_log_tagged}

unfoldable pub next_pane : FocusPane → FocusPane
next_pane toggles = hosts
next_pane hosts = job_log
next_pane job_log = commands
next_pane commands = toggles

unfoldable pub prev_pane : FocusPane → FocusPane
prev_pane toggles = commands
prev_pane hosts = toggles
prev_pane job_log = hosts
prev_pane commands = job_log

unfoldable pub set_focus : FocusPane → App → App
set_focus f a = record a { focus = f }

-- `pane_move_horizontal` by 1 and by -1.
unfoldable pub pane_right : FocusPane → FocusPane
pane_right hosts = job_log
pane_right toggles = toggles
pane_right job_log = job_log
pane_right commands = commands

unfoldable pub pane_left : FocusPane → FocusPane
pane_left job_log = hosts
pane_left toggles = toggles
pane_left hosts = hosts
pane_left commands = commands

-- `pane_move_vertical` by 1 and by -1.
unfoldable pub pane_down : FocusPane → FocusPane
pane_down toggles = hosts
pane_down hosts = commands
pane_down job_log = commands
pane_down commands = commands

unfoldable pub pane_up : FocusPane → FocusPane
pane_up commands = job_log
pane_up hosts = toggles
pane_up job_log = toggles
pane_up toggles = toggles

unfoldable pub toggle_count : ℕ
toggle_count = 5

unfoldable pub command_count : ℕ
command_count = 14

unfoldable pub move_toggle_index : ℤ → App → App
unfolding toggle_count step_index
move_toggle_index delta a = record a { toggle_index = step_index a.toggle_index delta toggle_count }

is_home : ProfileSel → Bool
is_home home = true
is_home all = false
is_home system = false

-- Only the button for boot, the tenth, is ever hidden.
unfoldable pub command_is_visible : App → ℕ → Bool
unfolding is_home
command_is_visible a idx = not (same_number idx 9 && is_home a.profile_sel)

unfoldable pub signum : ℤ → ℤ
signum (pos zero) = pos 0
signum (pos (suc n)) = pos 1
signum (negsuc n) = negsuc 0

-- The loop that skips hidden buttons, for as many rounds as there are buttons.
unfoldable pub skip_hidden : ℕ → App → ℤ → ℕ → ℕ
unfolding command_is_visible command_count signum step_index
skip_hidden zero a delta next = next
skip_hidden (suc f) a delta next =
    let later = skip_hidden f a delta (step_index next (signum delta) command_count) in
    if command_is_visible a next then next else later

unfoldable pub move_command_index : ℤ → App → App
unfolding skip_hidden command_count step_index
move_command_index delta a = record a {
  command_index =
      skip_hidden command_count a delta (step_index a.command_index delta command_count);
}

unfoldable pub move_selection : ℤ → App → App
unfolding step_index
move_selection delta a = elim a.nodes [
  | [] ↦ a
  | _ ∷ _ ↦ record a { selected = step_index a.selected delta (length a.nodes) }
]

unfoldable pub toggle_mark : String → App → App
unfolding push_log_tagged
toggle_mark name a = elim (position (λ n. n == name) a.marked) [
  | some idx ↦
      push_log_tagged (concat ("• unmarked " ∷ name ∷ [])) false (some name)
        (record a { marked = remove_at idx a.marked })
  | none ↦
      push_log_tagged (concat ("• marked " ∷ name ∷ [])) false (some name)
        (record a { marked = a.marked ++ name ∷ [] })
]

unfoldable pub toggle_mark_selected : App → App
unfolding toggle_mark selected_node
toggle_mark_selected a = elim (selected_node a) [ none ↦ a | some n ↦ toggle_mark n.name a ]

unfoldable pub mark_all : App → App
unfolding push_log decimal
mark_all a =
    push_log (concat ("• marked all (" ∷ decimal (length a.nodes) ∷ ")" ∷ [])) false
      (record a { marked = map (λ n. n.name) a.nodes })

unfoldable pub clear_marks : App → App
unfolding push_log decimal
clear_marks a = elim a.marked [
  | [] ↦ a
  | _ ∷ _ ↦
      push_log (concat ("• cleared " ∷ decimal (length a.marked) ∷ " marked" ∷ [])) false
        (record a { marked = [] })
]

unfoldable pub toggle_profile_system : App → App
unfolding push_log
toggle_profile_system a = elim a.profile_sel [
  | all ↦ record a { profile_sel = home }
  | home ↦ record a { profile_sel = all }
  | system ↦ push_log "! at least one profile must stay selected" true a
]

unfoldable pub toggle_profile_home : App → App
unfolding push_log
toggle_profile_home a = elim a.profile_sel [
  | all ↦ record a { profile_sel = system }
  | system ↦ record a { profile_sel = all }
  | home ↦ push_log "! at least one profile must stay selected" true a
]

-- ===== src/Tui/AgentKeys.antt =====
-- crates/deptui/src/app.rs: the keys of the agent view.
use deptui.Prelude.{
  ℕ, pos, negsuc, ◌+◌, ◌-◌, ◌%◌, String, Bool, true, false, ◌||◌, ◌&&◌, not, Option, none, some,
  List, [], ◌∷◌, ◌++◌, ◌==◌, length, ltb, if◌then◌else◌, is_some, unwrap_or, map_option,
}
use deptui.Prelude.Vectors.{position, remove_at}
use deptui.Tui.{App, AgentUi, World, search_log}
use deptui.Tui.Joblog.{char, line}
use deptui.Tui.Agent.{
  host_rows, selected_row, selected_agent_host_name, selected_agent_host, set_agent, set_agent_log,
  fetch_agent_status, agent_op, start_agent_tail, backfill_agent_log, scan_for_agents,
  close_agent_view,
}
use deptui.Tui.Search.{advance_match}
use deptui.Tui.Visual.{
  scroll_job_log, enter_visual_mode, visual_move_cursor, yank_visual, jump_to_top, snap_to_tail,
}
use deptui.Tui.Modal.{Key, KeyCode, choose, is_key, is_char, set_input}

unfoldable pub focus_log : Bool → App → App
focus_log b a = set_agent (record a.agent { log_focused = b }) a

unfoldable pub log_arms : World → Key → App → List (Bool × App)
log_arms w key a =
    (is_char "/" key.code, set_input (search_log "") a)
    ∷ (is_char "n" key.code && is_some a.log_search, advance_match (pos 1) a)
    ∷ (is_char "N" key.code && is_some a.log_search, advance_match (negsuc 0) a)
    ∷ (is_char "v" key.code, enter_visual_mode char (focus_log true a))
    ∷ (is_char "V" key.code, enter_visual_mode line (focus_log true a))
    ∷ (is_char "y" key.code && is_some a.visual_sel, yank_visual w a)
    ∷ (is_char "g" key.code, jump_to_top a)
    ∷ (is_char "G" key.code, snap_to_tail a)
    ∷ (is_key KeyCode.tab key.code, focus_log (not a.agent.log_focused) a)
    ∷ []

unfoldable pub agent_visual_arms : Key → App → List (Bool × App)
agent_visual_arms key a =
    (is_key KeyCode.up key.code || is_char "k" key.code, visual_move_cursor (negsuc 0) (pos 0) a)
    ∷ (is_key KeyCode.down key.code || is_char "j" key.code, visual_move_cursor (pos 1) (pos 0) a)
    ∷ (
      is_key KeyCode.left key.code || is_char "h" key.code,
      visual_move_cursor (pos 0) (negsuc 0) a,
    )
    ∷ (is_key KeyCode.right key.code || is_char "l" key.code, visual_move_cursor (pos 0) (pos 1) a)
    ∷ (is_key KeyCode.esc key.code, record a { visual_sel = none })
    ∷ []

-- The row after or before the selected one, round the list.
unfoldable pub next_row : AgentUi → AgentUi
next_row ui = elim (host_rows ui) [
  | [] ↦ ui
  | r ∷ rows ↦ record ui { sel = (ui.sel + 1) % length (r ∷ rows) }
]

unfoldable pub previous_row : AgentUi → AgentUi
previous_row ui = elim (host_rows ui) [
  | [] ↦ ui
  | r ∷ rows ↦ record ui { sel = (ui.sel + length (r ∷ rows) - 1) % length (r ∷ rows) }
]

unfoldable pub agent_down : App → App
agent_down a =
    if a.agent.log_focused then scroll_job_log (negsuc 0) a else set_agent (next_row a.agent) a

unfoldable pub agent_up : App → App
agent_up a =
    if a.agent.log_focused then scroll_job_log (pos 1) a else set_agent (previous_row a.agent) a

unfoldable pub toggle_host_mark : List String → String → List String
toggle_host_mark marked name = elim (position (λ m. m == name) marked) [
  | some i ↦ remove_at i marked
  | none ↦ marked ++ name ∷ []
]

unfoldable pub mark_agent_host : App → App
mark_agent_host a = elim (selected_agent_host_name a.agent) [
  | none ↦ a
  | some name ↦ set_agent (record a.agent { marked = toggle_host_mark a.agent.marked name }) a
]

unfoldable pub reload : World → App → App
reload w a = elim a.agent.agents [ [] ↦ scan_for_agents a | _ ∷ _ ↦ fetch_agent_status w a ]

unfoldable pub pause_verb : Bool → String
pause_verb paused = if paused then "resume" else "pause"

unfoldable pub pause_host : App → App
pause_host a = elim (selected_agent_host a.agent) [
  | none ↦ a
  | some (watch, host, paused) ↦
      agent_op (pause_verb paused ∷ "--host" ∷ host ∷ "--watch" ∷ watch ∷ []) a
]

unfoldable pub pause_agent : App → App
pause_agent a =
    agent_op (pause_verb (unwrap_or (map_option (λ s. s.paused) a.agent.status) false) ∷ []) a

unfoldable pub is_pending : Option (String × String) → String → String → Bool
is_pending none watch host = false
is_pending (some (w, h)) watch host = w == watch && h == host

unfoldable pub set_pending : Option (String × String) → App → App
set_pending p a = set_agent (record a.agent { pending_approve = p }) a

-- The first press warns, the second approves; an approval that stands is revoked at once.
unfoldable pub approve_selected : App → App
approve_selected a = elim (selected_row a.agent) [
  | none ↦ a
  | some (w, h) ↦
      if h.approved
      then set_pending none (agent_op ("approve" ∷ h.name ∷ "--watch" ∷ w.name ∷ "--revoke" ∷ []) a)
      else if is_pending a.agent.pending_approve w.name h.name
      then agent_op ("approve" ∷ h.name ∷ "--watch" ∷ w.name ∷ []) (set_pending none a)
      else set_pending (some (w.name, h.name)) a
]

unfoldable pub switch_agent : World → ℕ → App → App
switch_agent w current a =
    let b =
      set_agent_log [] (
        set_agent (record a.agent { current = current; status = none; error = none; sel = 0 }) a) in
    start_agent_tail w (
      fetch_agent_status w
        (backfill_agent_log (set_agent (record b.agent { backfilled = false; marked = [] }) b)))

unfoldable pub cycle_agent : World → Bool → App → App
cycle_agent w forward a =
    let n = length a.agent.agents in
    if ltb 1 n
    then switch_agent w
        (if forward then (a.agent.current + 1) % n else (a.agent.current + n - 1) % n) a
    else a

unfoldable pub agent_arms : World → Key → App → List (Bool × App)
agent_arms w key a =
    (is_key KeyCode.esc key.code && is_some a.log_search, record a { log_search = none })
    ∷ (
      is_char "q" key.code || is_key KeyCode.esc key.code || is_char "a" key.code,
      close_agent_view a,
    )
    ∷ (is_char "j" key.code || is_key KeyCode.down key.code, agent_down a)
    ∷ (is_char "k" key.code || is_key KeyCode.up key.code, agent_up a)
    ∷ (is_char " " key.code, mark_agent_host a)
    ∷ (is_char "r" key.code, reload w a)
    ∷ (is_char "u" key.code, agent_op ("kick" ∷ []) a)
    ∷ (is_char "p" key.code, pause_host a)
    ∷ (is_char "P" key.code, pause_agent a)
    ∷ (is_char "x" key.code, agent_op ("cancel" ∷ []) a)
    ∷ (is_key KeyCode.enter key.code, approve_selected a)
    ∷ (is_char "[" key.code, cycle_agent w false a)
    ∷ (is_char "]" key.code, cycle_agent w true a)
    ∷ []

unfoldable pub agent_visual : World → Key → App → App
agent_visual w key a = elim a.visual_sel [
  | none ↦ choose (agent_arms w key a) a
  | some sel ↦
      let b = record a { visual_sel = none } in
      choose (agent_visual_arms key a) (choose (agent_arms w key b) b)
]

unfoldable pub handle_key_agent : World → Key → App → App
handle_key_agent w key a =
    if is_some a.agent.pending_approve && is_key KeyCode.esc key.code
    then set_pending none a
    else choose (log_arms w key a) (agent_visual w key a)

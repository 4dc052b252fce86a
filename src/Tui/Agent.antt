-- ===== src/Tui/Agent.antt =====
-- crates/deptui/src/app.rs: the agent view's calls to the agent, its log, and opening and closing it.
use deptui.Prelude.{
  ℕ, suc, ◌-◌, String, Bool, true, false, ◌||◌, not, Option, none, some, List, [], ◌∷◌, ◌++◌, ◌==◌,
  length, ltb, any_by, if◌then◌else◌, is_some, and_then, map_option,
}
use deptui.Prelude.Text.{contains_text}
use deptui.Prelude.Strip.{strip_prefix}
use deptui.Prelude.Vectors.{get_elem?, push_capped}
use deptui.Prelude.Map.{contains_key, get}
use deptui.Wire.{WatchStatus, HostStatus}
use deptui.Remote.Status.{plain}
use deptui.Tui.{
  App, AgentUi, World, emit, fetched_status, agent_backfilled, agent_verb, tail_started,
  tail_stopped, scanned_agents,
}
use deptui.Tui.Joblog.{LogEntry}
use deptui.Tui.Log.{max_log}

unfoldable pub current_agent : AgentUi → Option (String × String)
current_agent ui = get_elem? ui.agents ui.current

-- The rows of one watch, from the `hi`-th host on.
rows_of : ℕ → ℕ → List HostStatus → List (ℕ × ℕ)
rows_of wi hi [] = []
rows_of wi hi (h ∷ hosts) = (wi, hi) ∷ rows_of wi (suc hi) hosts

rows_from : ℕ → List WatchStatus → List (ℕ × ℕ)
unfolding rows_of
rows_from wi [] = []
rows_from wi (w ∷ watches) = rows_of wi 0 w.hosts ++ rows_from (suc wi) watches

unfoldable pub host_rows : AgentUi → List (ℕ × ℕ)
unfolding rows_from
host_rows ui = elim ui.status [ none ↦ [] | some st ↦ rows_from 0 st.watches ]

-- The host of the selected row, with its watch.
unfoldable pub selected_row : AgentUi → Option (WatchStatus × HostStatus)
unfolding host_rows
selected_row ui = and_then (get_elem? (host_rows ui) ui.sel) λ row. and_then ui.status λ st.
    and_then (get_elem? st.watches row.0) λ w. and_then (get_elem? w.hosts row.1) λ h. some (w, h)

unfoldable pub selected_agent_host_name : AgentUi → Option String
unfolding selected_row
selected_agent_host_name ui = map_option (λ p. p.1.name) (selected_row ui)

unfoldable pub selected_agent_host : AgentUi → Option (String × String × Bool)
unfolding selected_row
selected_agent_host ui = map_option (λ p. (p.0.name, p.1.name, p.1.paused)) (selected_row ui)

unfoldable pub agent_manages_any : List String → App → Bool
unfolding get
agent_manages_any hosts a = any_by (λ h. contains_key h a.agent_managed) hosts

unfoldable pub set_agent : AgentUi → App → App
set_agent ui a = record a { agent = ui }

unfoldable pub fetch_agent_status : World → App → App
unfolding current_agent set_agent emit
fetch_agent_status w a = elim (current_agent a.agent) [
  | none ↦ a
  | some (name, ssh) ↦ emit (fetched_status ssh) (
      set_agent (record a.agent { loading = true; last_status_fetch = some (w.instant a.effects) })
        a)
]

unfoldable pub agent_op : List String → App → App
unfolding current_agent emit
agent_op args a = elim (current_agent a.agent) [
  | none ↦ a
  | some (name, ssh) ↦ emit (agent_verb ssh args) a
]

unfoldable pub stop_agent_tail : App → App
unfolding set_agent emit
stop_agent_tail a = elim a.agent.tail_task [
  | none ↦ a
  | some task ↦ emit (tail_stopped task) (set_agent (record a.agent { tail_task = none }) a)
]

-- A task that is started now bears the number of the effects before it.
unfoldable pub start_agent_tail : World → App → App
unfolding stop_agent_tail current_agent set_agent emit
start_agent_tail w a =
    let b = stop_agent_tail a in
    elim (current_agent b.agent) [
      | none ↦ b
      | some (name, ssh) ↦
          let task = length b.effects in
          emit (tail_started ssh task) (
            set_agent
              (record b.agent {
                last_tail_start = some (w.instant b.effects);
                tail_task = some task;
              })
              b)
    ]

unfoldable pub retry_interval : AgentUi → ℕ
retry_interval ui = if is_some ui.error then 20 else 5

-- Less than the interval has passed since then.
unfoldable pub within_interval : World → App → Option ℕ → Bool
unfolding retry_interval
within_interval w a o = elim o [
  | none ↦ false
  | some t ↦ ltb (w.instant a.effects - t) (retry_interval a.agent)
]

unfoldable pub ensure_agent_tail : World → App → App
unfolding start_agent_tail within_interval
ensure_agent_tail w a = elim a.agent.tail_task [
  | none ↦ a
  | some task ↦
      if not (w.finished a.effects task)
      then a
      else if within_interval w a a.agent.last_tail_start
      then a
      else start_agent_tail w a
]

unfoldable pub backfill_agent_log : App → App
unfolding current_agent set_agent emit
backfill_agent_log a = if a.agent.backfilled then a else elim (current_agent a.agent) [
  | none ↦ set_agent (record a.agent { backfilled = true }) a
  | some (name, ssh) ↦
      emit (agent_backfilled ssh) (set_agent (record a.agent { backfilled = true }) a)
]

-- One probe for each node: their results come back as one message.
unfoldable pub scan_for_agents : App → App
unfolding set_agent emit
scan_for_agents a =
    if a.agent.scanning
    then a
    else emit (scanned_agents a.nodes) (set_agent (record a.agent { scanning = true }) a)

unfoldable pub swap_log_state : App → App
swap_log_state a =
    let stash = a.agent.log_state in
    record a {
      log = stash.entries;
      job_log_scroll = stash.scroll;
      job_log_top_offset = stash.top_offset;
      visual_sel = stash.visual;
      log_search = stash.search;
      log_search_match_idx = stash.search_match_idx;
      agent = record a.agent {
        log_state = record {
          entries = a.log;
          scroll = a.job_log_scroll;
          top_offset = a.job_log_top_offset;
          visual = a.visual_sel;
          search = a.log_search;
          search_match_idx = a.log_search_match_idx;
        };
      };
    }

unfoldable pub open_agent_view : World → App → App
unfolding swap_log_state fetch_agent_status start_agent_tail backfill_agent_log scan_for_agents
    set_agent
open_agent_view w a =
    let b =
      swap_log_state
        (set_agent (record a.agent { open_view = true; sel = 0; log_focused = false }) a) in
    elim b.agent.agents [
      | [] ↦ scan_for_agents b
      | _ ∷ _ ↦ backfill_agent_log (start_agent_tail w (fetch_agent_status w b))
    ]

unfoldable pub close_agent_view : App → App
unfolding swap_log_state stop_agent_tail set_agent
close_agent_view a =
    stop_agent_tail (swap_log_state (set_agent (record a.agent { open_view = false }) a))

-- `split_once("] ")`.
unfoldable pub split_tag : String → Option (String × String)
unfolding strip_prefix
split_tag String.[] = none
split_tag (String.◌∷◌ c s) =
    let later = map_option (λ p. (String.◌∷◌ c p.0, p.1)) (split_tag s) in
    elim (strip_prefix "] " (String.◌∷◌ c s)) [ some rest ↦ some ("", rest) | none ↦ later ]

unfoldable pub names_host : AgentUi → String → Bool
names_host ui tag = elim ui.status [
  | none ↦ true
  | some st ↦ any_by (λ w. any_by (λ h. h.name == tag) w.hosts) st.watches
]

unfoldable pub agent_entry : Option String → String → LogEntry
unfolding strip_prefix
agent_entry host text = record {
  text = text;
  is_err = contains_text text "FAILED" || is_some (strip_prefix "!" text);
  host = host;
  kind = plain;
}

unfoldable pub parse_agent_line : AgentUi → String → LogEntry
unfolding split_tag names_host agent_entry strip_prefix
parse_agent_line ui text = elim (and_then (strip_prefix "[" text) split_tag) [
  | none ↦ agent_entry none text
  | some (tag, body) ↦
      if names_host ui tag then agent_entry (some tag) body else agent_entry none text
]

unfoldable pub set_agent_log : List LogEntry → App → App
set_agent_log entries a = record a {
  log = if a.agent.open_view then entries else a.log;
  agent = record a.agent {
    log_state = record a.agent.log_state {
      entries = if a.agent.open_view then a.agent.log_state.entries else entries;
    };
  };
}

unfoldable pub agent_log : App → List LogEntry
agent_log a = if a.agent.open_view then a.log else a.agent.log_state.entries

unfoldable pub push_agent_log_line : String → App → App
unfolding set_agent_log agent_log parse_agent_line max_log
push_agent_log_line text a =
    set_agent_log (push_capped max_log (parse_agent_line a.agent text) (agent_log a)) a

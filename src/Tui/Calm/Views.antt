-- ===== src/Tui/Calm/Views.antt =====
-- crates/deptui/src/app.rs: the agent view: its calls, its log and its selection.
use deptui.Prelude.{ℕ, pos, negsuc, String, Bool, true, false, Option, none, List, [], arith}
use deptui.Tui.{App, World, emit}
use deptui.Tui.Agent.{
  set_agent, fetch_agent_status, agent_op, stop_agent_tail, start_agent_tail, ensure_agent_tail,
  backfill_agent_log, scan_for_agents, swap_log_state, open_agent_view, close_agent_view,
  set_agent_log, selected_row, selected_agent_host, current_agent,
}
use deptui.Tui.AgentKeys.{
  focus_log, next_row, previous_row, agent_down, agent_up, mark_agent_host, reload, pause_host,
  pause_agent, set_pending, approve_selected, switch_agent, cycle_agent,
}
use deptui.Tui.Calm.{Calm, Calm-refl, Calm-trans, Calm-if, Calm-option, Calm-list}
use deptui.Tui.Calm.Cursors.{Calm-scroll_job_log}

pub Calm-fetch : (w : World) (a : App) → Calm a (fetch_agent_status w a)
unfolding fetch_agent_status
Calm-fetch w a = ground arith

pub Calm-op : (args : List String) (a : App) → Calm a (agent_op args a)
unfolding agent_op
Calm-op args a = ground arith

Calm-stop_tail : (a : App) → Calm a (stop_agent_tail a)
unfolding stop_agent_tail
Calm-stop_tail a = ground arith

pub Calm-start_tail : (w : World) (a : App) → Calm a (start_agent_tail w a)
unfolding start_agent_tail set_agent emit
Calm-start_tail w a =
    let b : App = stop_agent_tail a in
    Calm-trans (Calm-stop_tail a)
      (Calm-option b (current_agent b.agent) _ _ (Calm-refl b) λ p. ground arith)

pub Calm-ensure_tail : (w : World) (a : App) → Calm a (ensure_agent_tail w a)
unfolding ensure_agent_tail
Calm-ensure_tail w a =
    Calm-option a a.agent.tail_task _ _ (Calm-refl a)
      λ task. Calm-if _ a _ _ (Calm-refl a) (Calm-if _ a _ _ (Calm-refl a) (Calm-start_tail w a))

Calm-backfill : (a : App) → Calm a (backfill_agent_log a)
unfolding backfill_agent_log
Calm-backfill a = ground arith

Calm-scan : (a : App) → Calm a (scan_for_agents a)
unfolding scan_for_agents
Calm-scan a = ground arith

pub Calm-pending : (p : Option (String × String)) (a : App) → Calm a (set_pending p a)
unfolding set_pending set_agent
Calm-pending p a = ground arith

-- One more call after others: the rules of `search`.
module _ {a b : App} where
  asked : (args : List String) → Calm a b → Calm a (agent_op args b)
  asked args h = Calm-trans h (Calm-op args b)

  fetched : (w : World) → Calm a b → Calm a (fetch_agent_status w b)
  fetched w h = Calm-trans h (Calm-fetch w b)

  tailed : (w : World) → Calm a b → Calm a (start_agent_tail w b)
  tailed w h = Calm-trans h (Calm-start_tail w b)

  backfilled : Calm a b → Calm a (backfill_agent_log b)
  backfilled h = Calm-trans h (Calm-backfill b)

  awaited : (p : Option (String × String)) → Calm a b → Calm a (set_pending p b)
  awaited p h = Calm-trans h (Calm-pending p b)

ruleset view_rules = (asked, fetched, tailed, backfilled, awaited, Calm-refl, Calm-if)

pub Calm-open : (w : World) (a : App) → Calm a (open_agent_view w a)
unfolding open_agent_view swap_log_state set_agent
Calm-open w a =
    let b : App =
      swap_log_state
        (set_agent (record a.agent { open_view = true; sel = 0; log_focused = false }) a) in
    Calm-trans {b = b} (ground arith)
      (Calm-list b b.agent.agents _ _ (Calm-scan b) λ x xs. search view_rules)

pub Calm-close : (a : App) → Calm a (close_agent_view a)
unfolding close_agent_view swap_log_state set_agent
Calm-close a =
    let b : App = swap_log_state (set_agent (record a.agent { open_view = false }) a) in
    Calm-trans {b = b} (ground arith) (Calm-stop_tail b)

pub Calm-focus_log : (b : Bool) (a : App) → Calm a (focus_log b a)
unfolding focus_log set_agent
Calm-focus_log b a = ground arith

pub Calm-down : (a : App) → Calm a (agent_down a)
unfolding agent_down next_row set_agent
Calm-down a =
    Calm-if _ a _ (set_agent (next_row a.agent) a) (Calm-scroll_job_log (negsuc 0) a) (ground arith)

pub Calm-up : (a : App) → Calm a (agent_up a)
unfolding agent_up previous_row set_agent
Calm-up a =
    Calm-if _ a _ (set_agent (previous_row a.agent) a) (Calm-scroll_job_log (pos 1) a)
      (ground arith)

pub Calm-mark_host : (a : App) → Calm a (mark_agent_host a)
unfolding mark_agent_host set_agent
Calm-mark_host a = ground arith

pub Calm-reload : (w : World) (a : App) → Calm a (reload w a)
unfolding reload
Calm-reload w a = Calm-list a a.agent.agents _ _ (Calm-scan a) λ x xs. Calm-fetch w a

pub Calm-pause_host : (a : App) → Calm a (pause_host a)
unfolding pause_host
Calm-pause_host a = Calm-option a (selected_agent_host a.agent) _ _ (Calm-refl a) λ p. Calm-op _ a

pub Calm-pause_agent : (a : App) → Calm a (pause_agent a)
unfolding pause_agent
Calm-pause_agent a = Calm-op _ a

pub Calm-approve : (a : App) → Calm a (approve_selected a)
unfolding approve_selected
Calm-approve a = Calm-option a (selected_row a.agent) _ _ (Calm-refl a) λ p. search view_rules

Calm-switch : (w : World) (current : ℕ) (a : App) → Calm a (switch_agent w current a)
unfolding switch_agent set_agent set_agent_log
Calm-switch w current a =
    let b : App =
      set_agent_log [] (
        set_agent (record a.agent { current = current; status = none; error = none; sel = 0 }) a) in
    let c : App = set_agent (record b.agent { backfilled = false; marked = [] }) b in
    Calm-trans {b = c} (ground arith) (search view_rules)

pub Calm-cycle : (w : World) (forward : Bool) (a : App) → Calm a (cycle_agent w forward a)
unfolding cycle_agent
Calm-cycle w forward a = Calm-if _ a _ _ (Calm-switch w _ a) (Calm-refl a)

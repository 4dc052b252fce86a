-- ===== src/Tui/Sound/AgentKeys.antt =====
-- crates/deptui/src/app.rs: the keys of the agent's view, for the invariant.
use deptui.Prelude.{pos, negsuc, refl, true, false, none, arith, All}
use deptui.Tui.{App, World}
use deptui.Tui.Joblog.{char, line}
use deptui.Tui.Modal.{Key}
use deptui.Tui.AgentKeys.{
  log_arms, agent_visual_arms, agent_arms, agent_visual, handle_key_agent, focus_log,
}
use deptui.Tui.Calm.{Calm, Calm-refl, Calm-trans, Calm-if, Calm-option, choose-All, ◌▹◌}
use deptui.Tui.Calm.Cursors.{
  Calm-advance_match, Calm-enter_visual_mode, Calm-visual_move, Calm-jump_to_top, Calm-snap_to_tail,
  Calm-yank_visual,
}
use deptui.Tui.Calm.Views.{
  Calm-op, Calm-close, Calm-focus_log, Calm-down, Calm-up, Calm-mark_host, Calm-reload,
  Calm-pause_host, Calm-pause_agent, Calm-pending, Calm-approve, Calm-cycle,
}
use deptui.Tui.Calm.Modals.{moded}

Calm-agent_arms : (w : World) (key : Key) (a : App) → All (λ arm. Calm a arm.1) (agent_arms w key a)
unfolding agent_arms
Calm-agent_arms w key a =
    ground arith
    ▹ Calm-close a
    ▹ Calm-down a
    ▹ Calm-up a
    ▹ Calm-mark_host a
    ▹ Calm-reload w a
    ▹ Calm-op _ a
    ▹ Calm-pause_host a
    ▹ Calm-pause_agent a
    ▹ Calm-op _ a
    ▹ Calm-approve a
    ▹ Calm-cycle w false a
    ▹ Calm-cycle w true a
    ▹ tt

Calm-agent_visual : (w : World) (key : Key) (a : App) → Calm a (agent_visual w key a)
unfolding agent_visual agent_visual_arms
Calm-agent_visual w key a =
    Calm-option a a.visual_sel _ _ (choose-All (Calm a) _ _ (Calm-agent_arms w key a) (Calm-refl a))
      λ sel.
        let b : App = record a { visual_sel = none } in
        choose-All (Calm a) _ _
          (Calm-visual_move (negsuc 0) (pos 0) a
            ▹ Calm-visual_move (pos 1) (pos 0) a
            ▹ Calm-visual_move (pos 0) (negsuc 0) a
            ▹ Calm-visual_move (pos 0) (pos 1) a
            ▹ ground arith
            ▹ tt)
          (Calm-trans {b = b} (ground arith)
            (choose-All (Calm b) _ _ (Calm-agent_arms w key b) (Calm-refl b)))

Calm-log_arms : (w : World) (key : Key) (a : App) → All (λ arm. Calm a arm.1) (log_arms w key a)
unfolding log_arms
Calm-log_arms w key a =
    moded _ refl (Calm-refl a)
    ▹ Calm-advance_match (pos 1) a
    ▹ Calm-advance_match (negsuc 0) a
    ▹ Calm-trans (Calm-focus_log true a) (Calm-enter_visual_mode char (focus_log true a))
    ▹ Calm-trans (Calm-focus_log true a) (Calm-enter_visual_mode line (focus_log true a))
    ▹ Calm-yank_visual w a
    ▹ Calm-jump_to_top a
    ▹ Calm-snap_to_tail a
    ▹ Calm-focus_log _ a
    ▹ tt

pub Calm-agent : (w : World) (key : Key) (a : App) → Calm a (handle_key_agent w key a)
unfolding handle_key_agent
Calm-agent w key a =
    Calm-if _ a _ _ (Calm-pending none a)
      (choose-All (Calm a) _ _ (Calm-log_arms w key a) (Calm-agent_visual w key a))

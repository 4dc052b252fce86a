-- ===== src/Tui/Log.antt =====
-- crates/deptui/src/app.rs: the main job log, which stands in the shared fields unless the agent view
-- is open.
use deptui.Prelude.{ℕ, String, Bool, Option, none, List, if◌then◌else◌}
use deptui.Prelude.Vectors.{push_capped}
use deptui.Remote.Status.{LogKind, plain}
use deptui.Tui.{App}
use deptui.Tui.Joblog.{LogEntry}

unfoldable pub max_log : ℕ
max_log = 2000

unfoldable pub main_log : App → List LogEntry
main_log a = if a.agent.open_view then a.agent.log_state.entries else a.log

unfoldable pub set_main_log : List LogEntry → App → App
set_main_log entries a = record a {
  log = if a.agent.open_view then a.log else entries;
  agent = record a.agent {
    log_state = record a.agent.log_state {
      entries = if a.agent.open_view then entries else a.agent.log_state.entries;
    };
  };
}

unfoldable pub push_log_line : String → Bool → Option String → LogKind → App → App
unfolding max_log main_log set_main_log
push_log_line text is_err host kind a =
    set_main_log
      (push_capped max_log (record { text = text; is_err = is_err; host = host; kind = kind })
        (main_log a))
      a

unfoldable pub push_log_tagged : String → Bool → Option String → App → App
unfolding push_log_line
push_log_tagged text is_err host a = push_log_line text is_err host plain a

unfoldable pub push_log : String → Bool → App → App
unfolding push_log_tagged
push_log text is_err a = push_log_tagged text is_err none a

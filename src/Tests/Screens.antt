-- ===== src/Tests/Screens.antt =====
-- Tests of the screen's state: a batch, a failure, a search and a copy, on two hosts.
use deptui.Prelude.{
  pos, negsuc, ◌≡◌, ◌⊎◌, refl, String, true, false, none, some, List, [], ◌∷◌, arith, map,
}
use deptui.Prelude.Vectors.{get_elem?}
use deptui.Deploy.{stdout, exit, all, system, switch}
use deptui.Flake.{Node, has_system}
use deptui.Remote.Status.{plain}
use deptui.Tui.{
  App, DeploySession, Settings, World, with_settings, find_node, selected_node, new_agent, yanked,
}
use deptui.Tui.Joblog.{LogEntry, VisualSel, char, filtered_indices, shows, active_hosts}
use deptui.Tui.Search.{advance_match, count_all_matches, filtered_for_job_log, text_at}
use deptui.Tui.Visual.{yank_visual, chars, of_chars}
use deptui.Tui.Lines.{handle_deploy_line, exit_ok}
use deptui.Tui.Queue.{start_next_in_queue}
use deptui.Tui.{sudo}
use deptui.Tui.Modal.{Key, KeyCode}
use deptui.Runner.{askpass_disabled}
use deptui.Tui.Events.{opened, Event, pressed, deploy_line, handle, handle_all}
use deptui.Tui.Calm.{launched}
use deptui.Tui.Sound.{Sound}
use deptui.Tui.Starts.{ready}
use deptui.Tui.Guarded.Lines.{Permitted}
use deptui.Tui.Guarded.Events.{handle_all-Sound, handle-Permitted}
use deptui.Tui.Batch.{succeed, start_next_in_queue-succeed}
use deptui.Tui.Failures.{Stopped, bad_exit, handle_deploy_line-Stopped}
use deptui.Tui.Unseen.{Unseen, handle_key_password_prompt-Unseen}
use deptui.Tui.Passwords.{handle_key_password_prompt}
use deptui.Tui.Matches.{advance_match-back}
use deptui.Tui.Shown.{filtered_indices-shown, yank_visual-yanked}
use deptui.Tests.Data.{alpha}

abbrev beta : Node
beta = record alpha {
  name = "beta";
  profiles = ("home", record { user = some "me"; ssh_user = none }) ∷ [];
}

abbrev no_agents : Settings
no_agents = record { default_agent = none; agents = []; load_error = none }

abbrev desk : World
desk = record {
  clipboard = λ effects text. true;
  ssh_keys = λ effects. [];
  instant = λ effects. 7;
  finished = λ effects task. false;
}

abbrev key : KeyCode → Event
key code = pressed (record { code = code; control = false; shift = false; press = true })

-- All hosts are marked and a switch is asked for and confirmed; the first host succeeds.
abbrev evening : List Event
evening =
    key (KeyCode.char "A")
    ∷ key (KeyCode.char "S")
    ∷ key KeyCode.enter
    ∷ deploy_line (stdout "building")
    ∷ deploy_line (exit (pos 0))
    ∷ []

abbrev screen : App
screen = with_settings "." (alpha ∷ beta ∷ []) no_agents

abbrev start : App
start = opened desk askpass_disabled ("--show-trace" ∷ []) screen

handle_all-Sound_example : Sound (handle_all desk evening start)
handle_all-Sound_example =
    handle_all-Sound desk "." (alpha ∷ beta ∷ []) no_agents askpass_disabled ("--show-trace" ∷ [])
      evening

handle-Permitted_example :
    (launched (handle desk (key (KeyCode.char "y")) (handle_all desk evening start)).effects
      ≡ launched (handle_all desk evening start).effects)
    ⊎ Permitted (handle_all desk evening start) (key (KeyCode.char "y"))
handle-Permitted_example =
    handle-Permitted desk "." (alpha ∷ beta ∷ []) no_agents askpass_disabled ("--show-trace" ∷ [])
      evening (key (KeyCode.char "y"))

-- Of the batch, `beta` has no system and `gamma` is unknown.
start_next_in_queue-succeed_example :
    (launched
        (succeed 3
          (start_next_in_queue ("beta" ∷ "gamma" ∷ "alpha" ∷ []) switch system 3 0 screen)).effects
      ≡ "alpha" ∷ [])
    × ((succeed 3
          (start_next_in_queue ("beta" ∷ "gamma" ∷ "alpha" ∷ []) switch system 3 0 screen)).deploy
        ≡ none)
unfolding with_settings ready find_node has_system
start_next_in_queue-succeed_example =
    start_next_in_queue-succeed ("beta" ∷ "gamma" ∷ "alpha" ∷ []) switch system 3 0 screen refl

abbrev session : DeploySession
session = record {
  cancel = true;
  stdin_tx = true;
  current = "alpha";
  queue = "beta" ∷ [];
  mode = switch;
  profile = all;
  total = 2;
  done = 0;
}

abbrev deploying : App
deploying = record screen { deploy = some session }

handle_deploy_line-Stopped_example :
    Stopped session (pos 2) deploying (handle_deploy_line (exit (pos 2)) deploying)
unfolding exit_ok
handle_deploy_line-Stopped_example =
    handle_deploy_line-Stopped deploying session (exit (pos 2)) (pos 2) refl (bad_exit (pos 2) refl)

abbrev said : String → LogEntry
said text = record { text = text; is_err = false; host = none; kind = plain }

abbrev searching : App
searching = record screen {
  log = said "copy a" ∷ said "copy b, copy c" ∷ [];
  log_search = some "copy";
  log_search_match_idx = 3;
}

advance_match-back_example :
    ((advance_match (negsuc 0) (advance_match (pos 1) searching)).log_search_match_idx ≡ 3)
    × ((advance_match (pos 1) (advance_match (negsuc 0) searching)).log_search_match_idx ≡ 3)
unfolding count_all_matches filtered_for_job_log with_settings new_agent
advance_match-back_example = advance_match-back searching "copy" refl (omega arith) (omega arith)

-- Only the line that names the other host is hidden.
abbrev lines : List LogEntry
lines =
    said "ready"
    ∷ record (said "beta is done") { host = some "beta" }
    ∷ record (said "alpha is done") { host = some "alpha" }
    ∷ []

filtered_indices-shown_example :
    map (get_elem? lines) (filtered_indices lines [] (some "alpha"))
    ≡ some (said "ready") ∷ some (record (said "alpha is done") { host = some "alpha" }) ∷ []
unfolding shows active_hosts
filtered_indices-shown_example = filtered_indices-shown lines [] (some "alpha")

-- A selection that runs backwards.
abbrev selected : VisualSel
selected = record { mode = char; anchor = (1, 4); cursor = (0, 2) }

abbrev copying : App
copying = record screen { log = lines; visual_sel = some selected }

yank_visual-yanked_example : (yank_visual desk copying).effects ≡ yanked "ady\nalpha" ∷ []
unfolding filtered_for_job_log with_settings new_agent selected_node chars of_chars text_at
yank_visual-yanked_example =
    yank_visual-yanked desk copying selected refl (omega arith, omega arith)

abbrev enter_key : Key
enter_key = record { code = KeyCode.enter; control = false; shift = false; press = true }

handle_key_password_prompt-Unseen_example :
    Unseen
      (handle_key_password_prompt enter_key "sudo: " "hunter2" sudo deploying)
      (handle_key_password_prompt enter_key "sudo: " "" sudo deploying)
handle_key_password_prompt-Unseen_example =
    handle_key_password_prompt-Unseen enter_key "sudo: " sudo deploying "hunter2" ""

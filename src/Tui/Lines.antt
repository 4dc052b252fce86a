-- ===== src/Tui/Lines.antt =====
-- crates/deptui/src/app.rs: the lines of a running deploy, its end, and prompts for a password.
use deptui.Prelude.{
  ℤ, pos, negsuc, zero, suc, ◌+◌, String, Bool, true, false, not, Option, none, some, List, [], ◌∷◌,
  length, if◌then◌else◌, map_option,
}
use deptui.Prelude.Text.{concat, decimal, show_int}
use deptui.Prelude.Map.{Map, get, insert}
use deptui.Deploy.{LogLine, stdout, stderr, sudo_prompt, exit, error}
use deptui.Remote.Status.{ProfileStatus, UpdateState, no_extra}
use deptui.Tui.{
  App, DeploySession, InputMode, PromptSource, normal, password_prompt, askpass, sudo, sent_askpass,
  sent_stdin, emit, clear_cached_password,
}
use deptui.Tui.Log.{push_log_tagged}
use deptui.Tui.Queue.{start_next_in_queue}
use deptui.Tui.Cancel.{record_last, last_of}

unfoldable pub current_host : App → Option String
current_host a = map_option (λ s. s.current) a.deploy

unfoldable pub is_password_prompt : InputMode → Bool
is_password_prompt (password_prompt prompt buf source) = true
is_password_prompt _ = false

unfoldable pub dismiss_prompt : App → App
dismiss_prompt a = if is_password_prompt a.input then record a { input = normal } else a

unfoldable pub ask_password : String → PromptSource → App → App
ask_password prompt source a = record a { input = password_prompt prompt "" source }

unfoldable pub stale_profile : ProfileStatus → ProfileStatus
stale_profile p = record p { update = UpdateState.unknown; extra = no_extra; build_plan = none }

unfoldable pub stale_profiles : Map ProfileStatus → Map ProfileStatus
stale_profiles [] = []
stale_profiles ((k, p) ∷ m) = (k, stale_profile p) ∷ stale_profiles m

-- What a check had found of a host is forgotten once the host is deployed.
unfoldable pub forget_checks : String → App → App
forget_checks host a = elim (get host a.status) [
  | none ↦ a
  | some s ↦ record a {
    status =
        insert host (record s { profiles = stale_profiles s.profiles; cache_drift = none })
          a.status;
  }
]

unfoldable pub sudo_prompted : String → App → App
sudo_prompted prompt a = elim a.cached_password [
  | none ↦ ask_password prompt sudo a
  | some pw ↦ elim a.deploy [ none ↦ a | some s ↦ if s.stdin_tx then emit (sent_stdin pw) a else a ]
]

unfoldable pub exit_ok : ℤ → Bool
exit_ok (pos zero) = true
exit_ok (pos (suc n)) = false
exit_ok (negsuc n) = false

unfoldable pub exit_banner : ℤ → String
exit_banner code =
    if exit_ok code
    then concat ("← deploy succeeded (exit " ∷ show_int code ∷ ")" ∷ [])
    else concat
        ("← deploy failed (exit " ∷ show_int code ∷ ") — magic-rollback may have reverted" ∷ [])

-- The banner, the last-deploy entries and the modes that the end of a child resets.
unfoldable pub close_session : String → DeploySession → ℤ → Bool → App → App
close_session banner s code ok a =
    let b =
      dismiss_prompt
        (push_log_tagged banner (not ok) (some s.current) (record a { deploy = none })) in
    record_last (last_of s code ok) (record b { busy_label = none })

-- After a success: the next host of the batch, or its end.
unfoldable pub continue_batch : DeploySession → App → App
continue_batch s a = elim s.queue [
  | [] ↦ clear_cached_password a
  | q ∷ queue ↦ start_next_in_queue (q ∷ queue) s.mode s.profile s.total (s.done + 1) a
]

unfoldable pub warn_dropped : String → List String → String → App → App
warn_dropped why [] host a = a
warn_dropped why (q ∷ queue) host a =
    push_log_tagged (concat (why ∷ decimal (length (q ∷ queue)) ∷ " host(s) skipped" ∷ [])) true
      (some host) a

unfoldable pub stop_batch : DeploySession → App → App
stop_batch s a =
    warn_dropped "! batch stopped after failure — " s.queue s.current (clear_cached_password a)

unfoldable pub session_exited : DeploySession → ℤ → App → App
session_exited s code a =
    let b = close_session (exit_banner code) s code (exit_ok code) a in
    if exit_ok code then continue_batch s (forget_checks s.current b) else stop_batch s b

unfoldable pub error_banner : String → String
error_banner e = concat ("! deploy spawn failed: " ∷ e ∷ [])

unfoldable pub session_broke : DeploySession → String → App → App
session_broke s e a =
    warn_dropped "! batch stopped — " s.queue s.current
      (clear_cached_password (close_session (error_banner e) s (negsuc 0) false a))

unfoldable pub handle_deploy_line : LogLine → App → App
handle_deploy_line (stdout s) a = push_log_tagged s false (current_host a) a
handle_deploy_line (stderr s) a = push_log_tagged s true (current_host a) a
handle_deploy_line (sudo_prompt prompt) a = sudo_prompted prompt a
handle_deploy_line (exit code) a = elim a.deploy [
  | none ↦ push_log_tagged (exit_banner code) (not (exit_ok code)) none a
  | some s ↦ session_exited s code a
]
handle_deploy_line (error e) a = elim a.deploy [
  | none ↦ push_log_tagged (error_banner e) true none a
  | some s ↦ session_broke s e a
]

-- The run loop's arm for a prompt of the askpass server.
unfoldable pub askpass_prompted : String → App → App
askpass_prompted prompt a = elim a.cached_password [
  | none ↦ ask_password prompt askpass a
  | some pw ↦ emit (sent_askpass pw) a
]

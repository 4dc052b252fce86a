-- ===== src/Tui/Passwords.antt =====
-- crates/deptui/src/app.rs: the keys of the password prompt.
use deptui.Prelude.{String, true, false, Option, none, some, List, [], ◌∷◌, if◌then◌else◌}
use deptui.Deploy.{Mode, ProfileSel}
use deptui.Tui.{
  App, PromptSource, normal, password_prompt, askpass, sudo, sudo_pre, sent_askpass, sent_stdin,
  emit, set_cached_password, clear_cached_password,
}
use deptui.Tui.Log.{push_log}
use deptui.Tui.Queue.{run_confirmed}
use deptui.Tui.Modal.{Key, choose, edit, enter, esc, is_key, set_input}

unfoldable pub send_sudo : String → App → App
send_sudo pw a = elim a.deploy [
  | none ↦ push_log "! no stdin channel available for sudo password" true a
  | some s ↦
      if s.stdin_tx
      then emit (sent_stdin pw) a
      else push_log "! no stdin channel available for sudo password" true a
]

unfoldable pub start_pending : Option (List String × Mode × ProfileSel) → App → App
start_pending none a = a
start_pending (some (hosts, mode, profile)) a =
    run_confirmed hosts mode profile (record a { pending_deploy = none })

unfoldable pub submit_password : String → PromptSource → App → App
submit_password pw askpass a = set_input normal (emit (sent_askpass pw) (set_cached_password pw a))
submit_password pw sudo a = set_input normal (send_sudo pw (set_cached_password pw a))
submit_password pw sudo_pre a =
    start_pending a.pending_deploy (set_input normal (set_cached_password pw a))

unfoldable pub dismiss_password : PromptSource → App → App
dismiss_password askpass a = set_input normal (
    push_log "• password prompt dismissed — authentication will fail for this step" true
      (emit (sent_askpass "") (clear_cached_password a)))
dismiss_password sudo a = set_input normal (
    push_log "• password prompt dismissed — deploy may stall (press x to cancel)" true
      (clear_cached_password a))
dismiss_password sudo_pre a = set_input normal (
    push_log "• deploy cancelled — sudo password not provided" false
      (record (clear_cached_password a) { pending_deploy = none }))

unfoldable pub handle_key_password_prompt : Key → String → String → PromptSource → App → App
handle_key_password_prompt key prompt buf source a =
    choose
      ((is_key enter key.code, submit_password buf source a)
        ∷ (is_key esc key.code, dismiss_password source a)
        ∷ [])
      (set_input (password_prompt prompt (edit false key.code buf) source) a)

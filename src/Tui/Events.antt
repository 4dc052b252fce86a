-- ===== src/Tui/Events.antt =====
-- crates/deptui/src/app.rs: the dispatch of a key by the mode, the tick, and the events that the run
-- loop waits for.
use deptui.Prelude.{
  ℕ, ◌+◌, ◌-◌, String, Bool, true, false, ◌||◌, ◌&&◌, not, none, some, List, [], ◌∷◌, if◌then◌else◌,
}
use Prim.Native.Nat.{min}
use deptui.Prelude.Vectors.{is_nil}
use deptui.Deploy.{LogLine, AskpassEnv}
use deptui.Tui.{
  App, World, InputMode, normal, overrides_menu, edit_override, identity_picker, confirm_deploy,
  confirm_quit, search_log, search_help, password_prompt, emit, cancelled, aborted,
}
use deptui.Tui.Agent.{fetch_agent_status, ensure_agent_tail, within_interval}
use deptui.Tui.Probes.{refresh_reachability}
use deptui.Tui.Keys.{handle_key_normal, ask_quit}
use deptui.Tui.AgentKeys.{handle_key_agent}
use deptui.Tui.Lines.{handle_deploy_line, askpass_prompted}
use deptui.Tui.Modal.{
  Key, KeyCode, choose, is_key, is_char, set_input, handle_key_confirm_deploy,
  handle_key_confirm_quit, handle_key_search_log, handle_key_search_help,
}
use deptui.Tui.Passwords.{handle_key_password_prompt}
use deptui.Tui.Overrides.{
  handle_key_overrides_menu, handle_key_edit_override, handle_key_identity_picker,
}

unfoldable pub is_confirm_quit : InputMode → Bool
is_confirm_quit (confirm_quit running) = true
is_confirm_quit _ = false

unfoldable pub is_search_help : InputMode → Bool
is_search_help (search_help buf) = true
is_search_help _ = false

unfoldable pub interrupt : App → App
interrupt a = if is_confirm_quit a.input then record a { should_quit = true } else ask_quit a

unfoldable pub max_u16 : ℕ
max_u16 = 65535

unfoldable pub scroll_help : ℕ → App → App
scroll_help n a = record a { help_scroll = n }

-- The keys of the help popup; the scroll is a `u16` that saturates.
unfoldable pub help_arms : Key → App → List (Bool × App)
help_arms key a =
    (is_char "/" key.code, set_input (search_help "") a)
    ∷ (
      is_char "?" key.code
          || is_key KeyCode.esc key.code
          || is_key KeyCode.enter key.code
          || is_char "q" key.code,
      record a { show_help = false; help_scroll = 0; help_search = none },
    )
    ∷ (
      is_key KeyCode.down key.code || is_char "j" key.code,
      scroll_help (min (a.help_scroll + 1) max_u16) a,
    )
    ∷ (is_key KeyCode.up key.code || is_char "k" key.code, scroll_help (a.help_scroll - 1) a)
    ∷ (is_key KeyCode.page_down key.code, scroll_help (min (a.help_scroll + 5) max_u16) a)
    ∷ (is_key KeyCode.page_up key.code, scroll_help (a.help_scroll - 5) a)
    ∷ (is_key KeyCode.home_key key.code || is_char "g" key.code, scroll_help 0 a)
    ∷ (is_char "G" key.code, scroll_help max_u16 a)
    ∷ []

unfoldable pub handle_normal : World → Key → App → App
handle_normal w key a =
    if a.agent.open_view then handle_key_agent w key a else handle_key_normal w key a

unfoldable pub dispatch : World → Key → InputMode → App → App
dispatch w key normal a = handle_normal w key a
dispatch w key overrides_menu a = handle_key_overrides_menu w key a
dispatch w key (edit_override field buf) a = handle_key_edit_override key field buf a
dispatch w key (identity_picker entries selected buf) a =
    handle_key_identity_picker key entries selected buf a
dispatch w key (confirm_deploy hosts mode profile) a =
    handle_key_confirm_deploy key hosts mode profile a
dispatch w key (confirm_quit running) a = handle_key_confirm_quit key running a
dispatch w key (search_log buf) a = handle_key_search_log key buf a
dispatch w key (search_help buf) a = handle_key_search_help key buf a
dispatch w key (password_prompt prompt buf source) a =
    handle_key_password_prompt key prompt buf source a

unfoldable pub handle_key : World → Key → App → App
handle_key w key a =
    if not key.press
    then a
    else if key.control && is_char "c" key.code
    then interrupt a
    else if a.show_help && not (is_search_help a.input)
    then choose (help_arms key a) a
    else dispatch w key a.input a

-- The heartbeat of the open agent view.
unfoldable pub handle_tick : World → App → App
handle_tick w a =
    let due =
      a.agent.open_view
      && not a.agent.loading
      && not (is_nil a.agent.agents)
      && not (within_interval w a a.agent.last_status_fetch) in
    let b = if due then fetch_agent_status w a else a in
    if b.agent.open_view then ensure_agent_tail w b else b

-- What the run loop hears: the terminal, its end, the running deploy and the askpass server.
pub data Event : Type 0 where
  pressed : Key → Event
  ticked : Event
  ended : Event
  deploy_line : LogLine → Event
  prompted : String → Event

unfoldable pub handle : World → Event → App → App
handle w (pressed key) a = handle_key w key a
handle w ticked a = handle_tick w a
handle w ended a = record a { should_quit = true }
handle w (deploy_line text) a = handle_deploy_line text a
handle w (prompted prompt) a = askpass_prompted prompt a

-- The app as the loop finds it: with the build arguments of the command line and the askpass server,
-- after the first status fetch and the first sweep.
unfoldable pub opened : World → AskpassEnv → List String → App → App
unfolding refresh_reachability fetch_agent_status
opened w askpass build_args a =
    let b = record a { extra_build_args = build_args; askpass_env = askpass } in
    refresh_reachability w
      (elim b.agent.agents as (λ _. App) [ [] ↦ b | _ ∷ _ ↦ fetch_agent_status w b ])

-- The loop, over the events that come before the user quits.
unfoldable pub handle_all : World → List Event → App → App
unfolding handle
handle_all w [] a = a
handle_all w (e ∷ events) a =
    let rest = handle_all w events (handle w e a) in if a.should_quit then a else rest

-- A deploy that runs at the end is stopped.
unfoldable pub teardown : App → App
unfolding emit
teardown a = elim a.deploy [
  | none ↦ a
  | some s ↦
      let b = record a { deploy = none } in
      if s.cancel
      then emit (cancelled s.current) (record b { busy_label = some "stopping deploy…" })
      else emit (aborted s.current) b
]

unfoldable pub run : World → AskpassEnv → List String → List Event → App → App
unfolding opened handle_all teardown
run w askpass build_args events a = teardown (handle_all w events (opened w askpass build_args a))

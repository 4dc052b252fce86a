-- ===== src/Tui/Modal.antt =====
-- crates/deptui/src/app.rs: the keys of the popups and prompts, each of which either stays or gives
-- way to another mode.
use Prim.Native.String
use Prim.Native.Char.{Char, code}
use deptui.Prelude.{
  ℕ, String, Bool, true, false, ◌||◌, ◌&&◌, Option, none, some, List, [], ◌∷◌, same_number,
  if◌then◌else◌, is_none, unwrap_or,
}
use deptui.Prelude.Text.{concat, trim, is_empty}
use deptui.Prelude.Map.{insert, remove}
use deptui.Ssh.{SshOverride, is_active}
use deptui.Deploy.{Mode, ProfileSel}
use deptui.Tui.{
  App, InputMode, OverrideField, normal, confirm_deploy, confirm_quit, search_log, search_help,
  password_prompt, sudo_pre, hostname, user, identity, opts, field_label, override_for,
}
use deptui.Tui.Log.{push_log, push_log_tagged}
use deptui.Tui.Queue.{run_confirmed}
use deptui.Tui.Agent.{agent_op, agent_manages_any}
use deptui.Tui.Search.{search_job_log_jump_initial}

pub data KeyCode : Type 0 where
  char : Char → KeyCode
  esc enter backspace tab back_tab up down left right page_up page_down home_key other : KeyCode

pub record Key : Type 0 where
  pub code : KeyCode
  pub control : Bool
  pub shift : Bool
  pub press : Bool

-- The first arm of a `match` whose pattern fits.
unfoldable pub choose : {A : Type 0} → List (Bool × A) → A → A
choose [] d = d
choose ((true, a) ∷ arms) d = a
choose ((false, a) ∷ arms) d = choose arms d

abbrev key_number : KeyCode → ℕ
key_number (char c) = 0
key_number esc = 1
key_number enter = 2
key_number backspace = 3
key_number tab = 4
key_number back_tab = 5
key_number up = 6
key_number down = 7
key_number left = 8
key_number right = 9
key_number page_up = 10
key_number page_down = 11
key_number home_key = 12
key_number other = 13

unfoldable pub is_key : KeyCode → KeyCode → Bool
is_key (char c) (char d) = same_number (code c) (code d)
is_key p k = same_number (key_number p) (key_number k)

unfoldable pub is_char : Char → KeyCode → Bool
is_char c k = is_key (char c) k

-- The character of a key that types one.
unfoldable pub typed : KeyCode → Option Char
typed (char c) = some c
typed _ = none

-- `String::pop`.
unfoldable pub pop_char : String → String
pop_char String.[] = ""
pop_char (String.◌∷◌ c String.[]) = ""
pop_char (String.◌∷◌ c (String.◌∷◌ d s)) = String.◌∷◌ c (pop_char (String.◌∷◌ d s))

unfoldable pub push_char : String → Char → String
push_char s c = String.◌++◌ s (String.◌∷◌ c "")

-- What typing does to a buffer: a backspace, a character unless it is held back, or nothing.
unfoldable pub edit : Bool → KeyCode → String → String
edit held backspace buf = pop_char buf
edit true (char c) buf = buf
edit false (char c) buf = push_char buf c
edit held _ buf = buf

unfoldable pub non_empty : String → Option String
non_empty s = if is_empty s then none else some s

unfoldable pub set_field : OverrideField → Option String → SshOverride → SshOverride
set_field hostname v o = record o { hostname = v }
set_field user v o = record o { user = v }
set_field identity v o = record o { identity = v }
set_field opts v o = record o { extra_opts = v }

unfoldable pub field_value : OverrideField → SshOverride → String
field_value hostname o = unwrap_or o.hostname ""
field_value user o = unwrap_or o.user ""
field_value identity o = unwrap_or o.identity ""
field_value opts o = unwrap_or o.extra_opts ""

-- An override with nothing set is removed.
unfoldable pub store_override : String → SshOverride → App → App
store_override node o a = record a {
  overrides = if is_active o then insert node o a.overrides else remove node a.overrides;
}

-- The value of a field is set and said so.
unfoldable pub save_field : OverrideField → String → String → App → App
save_field field buf node a =
    let value = non_empty (trim buf) in
    push_log_tagged
      (concat
        ("→ set " ∷ field_label field ∷ " for " ∷ node ∷ ": " ∷ unwrap_or value "(cleared)" ∷ []))
      false (some node) (store_override node (set_field field value (override_for a node)) a)

unfoldable pub set_input : InputMode → App → App
set_input m a = record a { input = m }

unfoldable pub first_host : List String → String
first_host [] = "host"
first_host (h ∷ hosts) = h

-- The user agreed: the batch starts, after the sudo password if one is wanted.
unfoldable pub confirm : List String → Mode → ProfileSel → App → App
confirm hosts mode profile a =
    if a.toggles.interactive_sudo && is_none a.cached_password
    then record a {
      pending_deploy = some (hosts, mode, profile);
      input =
          password_prompt (concat ("sudo password for " ∷ first_host hosts ∷ ": " ∷ [])) ""
            sudo_pre;
    }
    else run_confirmed hosts mode profile (set_input normal a)

unfoldable pub handle_key_confirm_deploy : Key → List String → Mode → ProfileSel → App → App
handle_key_confirm_deploy key hosts mode profile a =
    choose
      ((
        is_char "y" key.code || is_char "Y" key.code || is_key enter key.code,
        confirm hosts mode profile a,
      )
        ∷ (
          is_char "n" key.code
              || is_char "N" key.code
              || is_key esc key.code
              || is_char "q" key.code,
          push_log "• deploy cancelled at confirmation" false (set_input normal a),
        )
        ∷ (
          is_char "p" key.code && agent_manages_any hosts a,
          set_input (confirm_deploy hosts mode profile) (
              push_log "[agent] pause requested before manual deploy" false
                (agent_op ("pause" ∷ []) a)),
        )
        ∷ [])
      (set_input (confirm_deploy hosts mode profile) a)

unfoldable pub handle_key_confirm_quit : Key → Bool → App → App
handle_key_confirm_quit key running a =
    choose
      ((
        is_char "y" key.code || is_char "Y" key.code || is_key enter key.code,
        set_input normal (record a { should_quit = true }),
      )
        ∷ (is_char "n" key.code || is_char "N" key.code || is_key esc key.code, set_input normal a)
        ∷ [])
      (set_input (confirm_quit running) a)

unfoldable pub commit_search : Option String → App → App
commit_search none a = record a { log_search = none }
commit_search (some q) a =
    search_job_log_jump_initial (record a { log_search = some q; job_log_scroll = 0 })

unfoldable pub handle_key_search_log : Key → String → App → App
handle_key_search_log key buf a =
    choose
      ((is_key esc key.code, set_input normal (record a { log_search = none }))
        ∷ (is_key enter key.code, commit_search (non_empty (trim buf)) (set_input normal a))
        ∷ [])
      (set_input (search_log (edit key.control key.code buf)) a)

-- What the help filter becomes while the text is typed.
unfoldable pub live_filter : Bool → KeyCode → String → Option String → Option String
live_filter held backspace buf old = non_empty (pop_char buf)
live_filter true (char c) buf old = old
live_filter false (char c) buf old = some (push_char buf c)
live_filter held _ buf old = old

unfoldable pub handle_key_search_help : Key → String → App → App
handle_key_search_help key buf a =
    choose
      ((is_key esc key.code, set_input normal (record a { help_search = none }))
        ∷ (
          is_key enter key.code,
          set_input normal (record a { help_search = non_empty (trim buf) }),
        )
        ∷ [])
      (set_input (search_help (edit key.control key.code buf))
        (record a { help_search = live_filter key.control key.code buf a.help_search }))

-- ===== src/Tui/Guarded/Events.antt =====
-- crates/deptui/src/app.rs: the run loop, for the invariant and for the starts of deploys.
use deptui.Prelude.{
  ◌≡◌, refl, ◌⊎◌, inl, inr, String, Bool, true, false, List, [], ◌∷◌, arith, if◌then◌else◌,
}
use deptui.Flake.{Node}
use deptui.Deploy.{AskpassEnv}
use deptui.Tui.{
  App, InputMode, Settings, World, normal, overrides_menu, edit_override, identity_picker,
  confirm_deploy, confirm_quit, search_log, search_help, password_prompt, with_settings, new_agent,
}
use deptui.Tui.Modal.{Key, choose}
use deptui.Tui.Calm.{launched, Calm, Calm-refl, Calm-trans, Calm-if, Calm-if, ◌▹◌}
use deptui.Tui.Calm.Modals.{moded}
use deptui.Tui.Sound.{Sound, Sound-Calm}
use deptui.Tui.Events.{
  Event, pressed, ticked, ended, opened, deploy_line, prompted, interrupt, help_arms, handle_normal,
  dispatch, handle_key, scroll_help, handle_tick, handle, handle_all,
}
use deptui.Tui.Agent.{fetch_agent_status, ensure_agent_tail}
use deptui.Tui.Calm.{choose-All}
use deptui.Tui.Calm.Checks.{Calm-badges, Calm-reachability}
use deptui.Tui.Calm.Views.{Calm-fetch, Calm-ensure_tail}
use deptui.Tui.Calm.Modals.{
  Calm-overrides_menu, Calm-edit_override, Calm-identity_picker, Calm-confirm_quit, Calm-search_log,
  Calm-search_help,
}
use deptui.Tui.Sound.Keys.{Tame-normal}
use deptui.Tui.Sound.Arms.{Calm-ask_quit}
use deptui.Tui.Sound.AgentKeys.{Calm-agent}
use deptui.Tui.Guarded.{Agreed, Handled, Handled-Tame, Handled-Calm, Handled-confirm_deploy}
use deptui.Tui.Guarded.Passwords.{Handled-password}
use deptui.Tui.Guarded.Lines.{Permitted, by_key, Handled-line, Calm-asked}

module _ (w : World) (key : Key) (a : App) where
  Handled-if :
      (b : Bool) (x y : App)
      → Handled (Agreed a key) a x
      → Handled (Agreed a key) a y
      → Handled (Agreed a key) a (if b then x else y)
  Handled-if true x y hx hy = hx
  Handled-if false x y hx hy = hy

  Handled-dispatch : (m : InputMode) → a.input ≡ m → Handled (Agreed a key) a (dispatch w key m a)
  unfolding dispatch handle_normal
  Handled-dispatch normal e =
      Handled-if _ _ _ (Handled-Calm (Calm-agent w key a)) (Handled-Tame (Tame-normal w key a))
  Handled-dispatch overrides_menu e = Handled-Calm (Calm-overrides_menu w key a)
  Handled-dispatch (edit_override field buf) e = Handled-Calm (Calm-edit_override key field buf a)
  Handled-dispatch (identity_picker entries selected buf) e =
      Handled-Calm (Calm-identity_picker key entries selected buf a)
  Handled-dispatch (confirm_deploy hosts mode profile) e =
      Handled-confirm_deploy a key hosts mode profile e
  Handled-dispatch (confirm_quit running) e = Handled-Calm (Calm-confirm_quit key running a)
  Handled-dispatch (search_log buf) e = Handled-Calm (Calm-search_log key buf a)
  Handled-dispatch (search_help buf) e = Handled-Calm (Calm-search_help key buf a)
  Handled-dispatch (password_prompt prompt buf source) e =
      Handled-password a key prompt buf source e

  Calm-interrupt : Calm a (interrupt a)
  unfolding interrupt
  Calm-interrupt = Calm-if _ a (record a { should_quit = true }) _ (ground arith) (Calm-ask_quit a)

  Calm-help : Calm a (choose (help_arms key a) a)
  unfolding help_arms scroll_help
  Calm-help =
      choose-All (Calm a) _ _
        (moded _ refl (Calm-refl a)
          ▹ ground arith
          ▹ ground arith
          ▹ ground arith
          ▹ ground arith
          ▹ ground arith
          ▹ ground arith
          ▹ ground arith
          ▹ tt)
        (Calm-refl a)

  Handled-key : Handled (Agreed a key) a (handle_key w key a)
  unfolding handle_key
  Handled-key = Handled-if _ _ _ (Handled-Calm (Calm-refl a)) (
      Handled-if _ _ _ (Handled-Calm Calm-interrupt)
        (Handled-if _ _ _ (Handled-Calm Calm-help) (Handled-dispatch a.input refl)))

Calm-tick : (w : World) (a : App) → Calm a (handle_tick w a)
unfolding handle_tick
Calm-tick w a = fetched _
  where
    fetched :
        (due : Bool)
        → Calm a (
            if (if due then fetch_agent_status w a else a).agent.open_view
            then ensure_agent_tail w (if due then fetch_agent_status w a else a)
            else if due
            then fetch_agent_status w a
            else a)
    fetched true = Calm-trans (Calm-fetch w a) (
        Calm-if _ (fetch_agent_status w a) _ _ (Calm-ensure_tail w (fetch_agent_status w a))
          (Calm-refl (fetch_agent_status w a)))
    fetched false = Calm-if _ a _ _ (Calm-ensure_tail w a) (Calm-refl a)

Handled-event : (w : World) (e : Event) (a : App) → Handled (Permitted a e) a (handle w e a)
unfolding handle
Handled-event w (pressed key) a =
    let k = Handled-key w key a in
    record {
      keeps = k.keeps;
      starts = λ h. elim (k.starts h) [
        | inl same ↦ inl same
        | inr agreed ↦ inr (by_key key refl agreed)
      ];
    }
Handled-event w ticked a = Handled-Calm (Calm-tick w a)
Handled-event w ended a = Handled-Calm (ground arith)
Handled-event w (deploy_line text) a = Handled-line a text
Handled-event w (prompted prompt) a = Handled-Calm (Calm-asked prompt a)

Sound-new :
    (flake : String) (nodes : List Node) (settings : Settings)
    → Sound (with_settings flake nodes settings)
unfolding with_settings new_agent
Sound-new flake nodes settings = record {
  modal = λ e. cc;
  stashed = λ e. cc;
  progress = tt;
  bounded = omega arith;
  in_range = omega arith;
}

Calm-opened :
    (w : World) (askpass : AskpassEnv) (build_args : List String) (a : App)
    → Calm a (opened w askpass build_args a)
unfolding opened
Calm-opened w askpass build_args a =
    let b : App = record a { extra_build_args = build_args; askpass_env = askpass } in
    Calm-trans {b = b} (ground arith)
      (Calm-trans (Calm-badges w b b.agent.agents) (Calm-reachability w _))

pub Sound-handle_all :
    (w : World) (events : List Event) (a : App) → Sound a → Sound (handle_all w events a)
unfolding handle_all
Sound-handle_all w [] a h = h
Sound-handle_all w (e ∷ events) a h =
    Sound-if a.should_quit h
      (Sound-handle_all w events (handle w e a) ((Handled-event w e a).keeps h))
  where
    Sound-if : {b c : App} (quit : Bool) → Sound b → Sound c → Sound (if quit then b else c)
    Sound-if true h k = h
    Sound-if false h k = k

-- What the program comes to, from its start on.
module _ (w : World) (flake : String) (nodes : List Node) (settings : Settings)
    (askpass : AskpassEnv) (build_args : List String) (events : List Event) where
  -- Whatever keys, ticks, lines of a deploy and askpass prompts the run loop hears after its start,
  -- in whatever order and with whatever answers from the world, the screen's state stays sound: a
  -- deploy waits for a confirmation or for its sudo password only while no other is under way, the
  -- wait for that password has the confirmed request at hand, the hosts done, running and waiting
  -- make up the batch, each of the two logs has at most 2000 entries, and the cursors stay in
  -- range.
  pub handle_all-Sound :
      Sound (handle_all w events (opened w askpass build_args (with_settings flake nodes settings)))
  handle_all-Sound =
      Sound-handle_all w events _
        (Sound-Calm (Calm-opened w askpass build_args _) (Sound-new flake nodes settings))

  -- In every state that the run loop comes to, an event starts a deploy only if no deploy is under
  -- way and the key confirms the request on the screen or enters the sudo password that a confirmed
  -- one waits for, or if the event is the successful exit of the deploy under way.
  pub handle-Permitted :
      (e : Event)
      → let a =
          handle_all w events (opened w askpass build_args (with_settings flake nodes settings)) in
        (launched (handle w e a).effects ≡ launched a.effects) ⊎ Permitted a e
  handle-Permitted e = (Handled-event w e _).starts handle_all-Sound

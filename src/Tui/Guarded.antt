-- ===== src/Tui/Guarded.antt =====
-- crates/deptui/src/app.rs: the confirmation of a request, for the invariant and for the starts
-- of deploys.
pub mod Passwords
pub mod Lines
pub mod Events
use deptui.Prelude.{
  ℕ, ℤ, ◌+◌, ◌≡◌, refl, ◌∙◌, sym, ap, subst, ◌⊎◌, inl, inr, String, Bool, true, false, ◌||◌, ◌&&◌,
  not, Option, none, some, List, [], ◌∷◌, length, arith, if◌then◌else◌, is_some, is_none,
  Bool-cases,
}
use deptui.Prelude.Vectors.{is_nil}
use deptui.Prelude.Text.{concat}
use deptui.Flake.{Node}
use deptui.Deploy.{Mode, ProfileSel, LogLine, stdout, stderr, sudo_prompt, exit, error}
use deptui.Remote.Status.{plain, run_start}
use deptui.Tui.{
  App, InputMode, DeploySession, Settings, World, PromptSource, normal, overrides_menu,
  edit_override, identity_picker, confirm_deploy, confirm_quit, search_log, search_help,
  password_prompt, askpass, sudo, sudo_pre, with_settings, clear_cached_password,
  set_cached_password, sent_askpass, sent_stdin, emit,
}
use deptui.Tui.Log.{push_log, push_log_line, push_log_tagged}
use deptui.Tui.Queue.{run_confirmed, start_next_in_queue, run_banner}
use deptui.Tui.Agent.{agent_op, agent_manages_any}
use deptui.Tui.Modal.{
  Key, KeyCode, choose, is_key, is_char, edit, set_input, confirm, first_host,
  handle_key_confirm_deploy,
}
use deptui.Tui.Passwords.{
  send_sudo, start_pending, submit_password, dismiss_password, handle_key_password_prompt,
}
use deptui.Tui.Calm.{
  launched, armed, Bounded, InRange, Calm, Calm-refl, Calm-trans, Calm-if, Calm-set_input,
  Calm-push_log, Calm-push_log_line, logged, ◌▹◌, calm_rules,
}
use deptui.Tui.Calm.Modals.{moded}
use deptui.Tui.Calm.Views.{Calm-op}
use deptui.Tui.Sound.{Sound, Sound-Calm, Tame, Tame-Calm, Fits, is_sudo_pre, armed-sudo_pre}
use deptui.Tui.Starts.{Sound-queue, Calm-unarmed}

-- The keys that agree to a confirmation.
abbrev pub agrees : Key → Bool
agrees key = is_char "y" key.code || is_char "Y" key.code || is_key KeyCode.enter key.code

-- Why a key may start a deploy: no other runs, and the user has confirmed the request, or has typed
-- the sudo password that a confirmed one waits for.
pub data Agreed (a : App) (key : Key) : Type 0 where
  confirmed :
      (hosts : List String) (mode : Mode) (profile : ProfileSel)
      → a.input ≡ confirm_deploy hosts mode profile
      → agrees key ≡ true
      → a.deploy ≡ none
      → Agreed a key
  password_given :
      (prompt buf : String)
      → a.input ≡ password_prompt prompt buf sudo_pre
      → is_key KeyCode.enter key.code ≡ true
      → a.deploy ≡ none
      → Agreed a key

pub record Handled (May : Type 0) (a b : App) : Type 0 where
  pub keeps : Sound a → Sound b
  pub starts : Sound a → (launched b.effects ≡ launched a.effects) ⊎ May

pub Handled-Tame : {May : Type 0} {a b : App} → Tame a b → Handled May a b
Handled-Tame t = record { keeps = t.keeps; starts = λ h. inl t.launches }

pub Handled-Calm : {May : Type 0} {a b : App} → Calm a b → Handled May a b
Handled-Calm c = Handled-Tame (Tame-Calm c)

-- A property of each arm whose pattern fits.
abbrev pub Fitting : (App → Type 0) → List (Bool × App) → Type 0
Fitting P [] = Unit {0}
Fitting P (arm ∷ arms) = (arm.0 ≡ true → P arm.1) × Fitting P arms

pub choose-Fitting :
    (P : App → Type 0) (arms : List (Bool × App)) (d : App)
    → Fitting P arms
    → P d
    → P (choose arms d)
unfolding choose
choose-Fitting P [] d h hd = hd
choose-Fitting P ((true, x) ∷ arms) d h hd = h.0 refl
choose-Fitting P ((false, x) ∷ arms) d h hd = choose-Fitting P arms d h.1 hd

-- A confirmed batch keeps the invariant where no mode is armed.
pub Sound-confirmed :
    (hosts : List String) (mode : Mode) (profile : ProfileSel) (a : App)
    → armed a.input ≡ false
    → Sound a
    → Sound (run_confirmed hosts mode profile a)
unfolding run_confirmed
Sound-confirmed hosts mode profile a e h =
    let b : App = record a {
      mode = mode;
      last_deploy = none;
      job_log_scroll = 0;
      visual_sel = none;
    } in
    let c : App = push_log_line "" false none plain b in
    let d : App = push_log_line (run_banner hosts mode profile) false none run_start c in
    let calm : Calm a d =
      Calm-trans {b = b} (ground arith)
        (Calm-trans {b = c} (Calm-push_log_line _ _ _ _ b) (Calm-push_log_line _ _ _ _ c)) in
    Sound-queue hosts mode profile (length hosts) 0 d (omega arith) (Calm-unarmed calm e)
      (Sound-Calm calm h)

pub unarmed : (a : App) → armed (set_input normal a).input ≡ false
unfolding set_input
unarmed a = refl

module _ (a : App) (key : Key) where
  Handled-confirm :
      (hosts : List String) (mode : Mode) (profile : ProfileSel)
      → a.input ≡ confirm_deploy hosts mode profile
      → agrees key ≡ true
      → Handled (Agreed a key) a (confirm hosts mode profile a)
  unfolding confirm
  Handled-confirm hosts mode profile e y =
      asked (a.toggles.interactive_sudo && is_none a.cached_password)
    where
      free : Sound a → a.deploy ≡ none
      free h = h.modal (ap armed e)

      waiting : App
      waiting = record a {
        pending_deploy = some (hosts, mode, profile);
        input =
            password_prompt (concat ("sudo password for " ∷ first_host hosts ∷ ": " ∷ [])) ""
              sudo_pre;
      }

      asked :
          (b : Bool)
          → Handled
              (Agreed a key)
              a
              (if b then waiting else run_confirmed hosts mode profile (set_input normal a))
      asked true = record {
        keeps = λ h. record {
          modal = λ i. free h;
          stashed = λ i. refl;
          progress = h.progress;
          bounded = h.bounded;
          in_range = h.in_range;
        };
        starts = λ h. inl refl;
      }
      asked false = record {
        keeps = λ h.
            Sound-confirmed hosts mode profile (set_input normal a) (unarmed a)
              (Sound-Calm (Calm-set_input normal a refl) h);
        starts = λ h. inr (confirmed hosts mode profile e y (free h));
      }

  -- The mode that the key met is put back.
  pub Calm-restored : {b : App} (m : InputMode) → a.input ≡ m → Calm a b → Calm a (set_input m b)
  unfolding set_input
  Calm-restored m e c = record {
    launches = c.launches;
    same_deploy = c.same_deploy;
    same_pending = c.same_pending;
    same_nodes = c.same_nodes;
    disarmed = λ i. sym e;
    logs = c.logs;
    cursors = c.cursors;
  }

  pub Handled-confirm_deploy :
      (hosts : List String) (mode : Mode) (profile : ProfileSel)
      → a.input ≡ confirm_deploy hosts mode profile
      → Handled (Agreed a key) a (handle_key_confirm_deploy key hosts mode profile a)
  unfolding handle_key_confirm_deploy
  Handled-confirm_deploy hosts mode profile e =
      choose-Fitting (Handled (Agreed a key) a) _ _
        ((λ y. Handled-confirm hosts mode profile e y)
          ▹ (λ n. Handled-Calm (logged _ _ (moded normal refl (Calm-refl a))))
          ▹ (λ p. Handled-Calm (
              Calm-restored (confirm_deploy hosts mode profile) e
                (logged _ _ (Calm-op ("pause" ∷ []) a))))
          ▹ tt)
        (Handled-Calm (Calm-restored _ e (Calm-refl a)))

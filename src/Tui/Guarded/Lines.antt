-- ===== src/Tui/Guarded/Lines.antt =====
-- crates/deptui/src/app.rs: the lines of a running deploy, for the invariant and for the starts
-- of deploys.
use deptui.Prelude.{
  ℤ, negsuc, ◌+◌, ◌≡◌, refl, ap, subst, inl, inr, String, Bool, true, false, not, Option, none,
  some, List, [], ◌∷◌, length, arith, if◌then◌else◌, Bool-cases,
}
use deptui.Deploy.{LogLine, stdout, stderr, sudo_prompt, exit, error}
use deptui.Tui.{App, DeploySession, normal, askpass, clear_cached_password, emit}
use deptui.Tui.Log.{push_log_tagged}
use deptui.Tui.Queue.{start_next_in_queue}
use deptui.Tui.Modal.{Key}
use deptui.Tui.Calm.{armed, Calm, Calm-refl, Calm-trans, Calm-if, Calm-if, Calm-push_log_tagged}
use deptui.Tui.Sound.{Sound, Sound-Calm, Fits, Tame, Fits}
use deptui.Tui.Starts.{Sound-queue, Calm-unarmed}
use deptui.Tui.Lines.{
  dismiss_prompt, ask_password, sudo_prompted, forget_checks, exit_ok, exit_banner, close_session,
  continue_batch, stop_batch, warn_dropped, session_exited, error_banner, session_broke,
  handle_deploy_line, askpass_prompted,
}
use deptui.Tui.Events.{Event, pressed, deploy_line}
use deptui.Tui.Sound.{Calm-record_last}
use deptui.Tui.Guarded.{Agreed, Handled, Handled-Tame, Handled-Calm}

Calm-ask : (prompt : String) (a : App) → Calm a (ask_password prompt askpass a)
unfolding ask_password
Calm-ask prompt a = ground arith

pub Calm-asked : (prompt : String) (a : App) → Calm a (askpass_prompted prompt a)
unfolding askpass_prompted ask_password emit
Calm-asked prompt a = ground arith

Calm-sudo : (prompt : String) (a : App) → Calm a (sudo_prompted prompt a)
unfolding sudo_prompted ask_password emit
Calm-sudo prompt a = ground arith

Calm-dismiss : (a : App) → Calm a (dismiss_prompt a)
unfolding dismiss_prompt
Calm-dismiss a = Calm-if _ a (record a { input = normal }) _ (ground arith) (Calm-refl a)

pub Calm-forget : (host : String) (a : App) → Calm a (forget_checks host a)
unfolding forget_checks
Calm-forget host a = ground arith

pub Calm-dropped :
    (why : String) (queue : List String) (host : String) (a : App)
    → Calm a (warn_dropped why queue host a)
unfolding warn_dropped
Calm-dropped why [] host a = Calm-refl a
Calm-dropped why (q ∷ queue) host a = Calm-push_log_tagged _ _ _ a

-- All that the end of a session does once the session is taken.
pub Calm-close :
    (banner : String) (s : DeploySession) (code : ℤ) (done : Bool) (a : App)
    → Calm (record a { deploy = none }) (close_session banner s code done a)
unfolding close_session
Calm-close banner s code done a =
    let a0 : App = record a { deploy = none } in
    let b : App = push_log_tagged banner (not done) (some s.current) a0 in
    let c : App = dismiss_prompt b in
    let d : App = record c { busy_label = none } in
    Calm-trans {b = b} (Calm-push_log_tagged _ _ _ a0) (
      Calm-trans {b = c} (Calm-dismiss b)
        (Calm-trans {b = d} (ground arith) (Calm-record_last s code done d)))

pub Calm-cleared : (a : App) → Calm a (clear_cached_password a)
unfolding clear_cached_password
Calm-cleared a = ground arith

Sound-taken : (a : App) → Sound a → Sound (record a { deploy = none })
Sound-taken a h = record {
  modal = λ e. refl;
  stashed = h.stashed;
  progress = tt;
  bounded = h.bounded;
  in_range = h.in_range;
}

-- Why an event may start a deploy.
pub data Permitted (a : App) (e : Event) : Type 0 where
  by_key : (key : Key) → e ≡ pressed key → Agreed a key → Permitted a e
  by_success :
      (s : DeploySession) (code : ℤ)
      → e ≡ deploy_line (exit code)
      → exit_ok code ≡ true
      → a.deploy ≡ some s
      → Permitted a e

-- A mode is armed only while no deploy is under way.
unarmed_running :
    (a : App) (s : DeploySession) → a.deploy ≡ some s → Sound a → armed a.input ≡ false
unarmed_running a s e h = elim (Bool-cases (armed a.input)) [
  | inl armed ↦ cc (h.modal armed)
  | inr not_armed ↦ not_armed
]

module _ (a : App) (s : DeploySession) (running : a.deploy ≡ some s) where
  Sound-continue :
      (queue : List String) (b : App)
      → s.queue ≡ queue
      → Sound a
      → Sound b
      → armed b.input ≡ false
      → Sound (elim queue [
        | [] ↦ clear_cached_password b
        | q ∷ rest ↦ start_next_in_queue (q ∷ rest) s.mode s.profile s.total (s.done + 1) b
      ])
  Sound-continue [] b e h g i = Sound-Calm (Calm-cleared b) g
  Sound-continue (q ∷ rest) b e h g i =
      let fits : s.done + 1 + length s.queue ≡ s.total = subst Fits running h.progress in
      Sound-queue (q ∷ rest) s.mode s.profile s.total (s.done + 1) b (omega (arith, ap length e)) i
        g

  Handled-exited :
      (code : ℤ) → Handled (Permitted a (deploy_line (exit code))) a (session_exited s code a)
  unfolding session_exited continue_batch stop_batch
  Handled-exited code = ended (exit_ok code) refl
    where
      b : Bool → App
      b done = close_session (exit_banner code) s code done a

      closed : (done : Bool) → Sound a → Sound (b done)
      closed done h = Sound-Calm (Calm-close _ s code done a) (Sound-taken a h)

      forgotten : Calm (b true) (forget_checks s.current (b true))
      forgotten = Calm-forget s.current (b true)

      stopped :
          Calm
            (record a { deploy = none })
            (warn_dropped "! batch stopped after failure — " s.queue s.current
              (clear_cached_password (b false)))
      stopped =
          Calm-trans (Calm-close _ s code false a)
            (Calm-trans (Calm-cleared (b false)) (Calm-dropped _ s.queue s.current _))

      ended :
          (done : Bool)
          → exit_ok code ≡ done
          → Handled (Permitted a (deploy_line (exit code))) a (
              if done
              then continue_batch s (forget_checks s.current (b done))
              else stop_batch s (b done))
      ended true e = record {
        keeps = λ h.
            Sound-continue s.queue (forget_checks s.current (b true)) refl h
              (Sound-Calm forgotten (closed true h))
              (Calm-unarmed forgotten
                (Calm-unarmed (Calm-close _ s code true a) (unarmed_running a s running h)));
        starts = λ h. inr (by_success s code refl e running);
      }
      ended false e = record {
        keeps = λ h. Sound-Calm stopped (Sound-taken a h);
        starts = λ h. inl stopped.launches;
      }

  Tame-broke : (e : String) → Tame a (session_broke s e a)
  unfolding session_broke
  Tame-broke e =
      let b : App = close_session (error_banner e) s (negsuc 0) false a in
      let c : Calm (record a { deploy = none }) (session_broke s e a) =
        Calm-trans (Calm-close _ s (negsuc 0) false a)
          (Calm-trans (Calm-cleared b) (Calm-dropped _ s.queue s.current _)) in
      record { launches = c.launches; keeps = λ h. Sound-Calm c (Sound-taken a h) }

pub Handled-line :
    (a : App) (text : LogLine)
    → Handled (Permitted a (deploy_line text)) a (handle_deploy_line text a)
unfolding handle_deploy_line
Handled-line a (stdout s) = Handled-Calm (Calm-push_log_tagged _ _ _ a)
Handled-line a (stderr s) = Handled-Calm (Calm-push_log_tagged _ _ _ a)
Handled-line a (sudo_prompt prompt) = Handled-Calm (Calm-sudo prompt a)
Handled-line a (exit code) = running a.deploy refl
  where
    running :
        (o : Option DeploySession)
        → a.deploy ≡ o
        → Handled (Permitted a (deploy_line (exit code))) a (elim o [
          | none ↦ push_log_tagged (exit_banner code) (not (exit_ok code)) none a
          | some s ↦ session_exited s code a
        ])
    running none e = Handled-Calm (Calm-push_log_tagged _ _ _ a)
    running (some s) e = Handled-exited a s e code
Handled-line a (error e) = running a.deploy refl
  where
    running :
        (o : Option DeploySession)
        → a.deploy ≡ o
        → Handled (Permitted a (deploy_line (error e))) a (elim o [
          | none ↦ push_log_tagged (error_banner e) true none a
          | some s ↦ session_broke s e a
        ])
    running none r = Handled-Calm (Calm-push_log_tagged _ _ _ a)
    running (some s) r = Handled-Tame (Tame-broke a s r e)

-- ===== src/Tui/Sound.antt =====
-- crates/deptui/src/app.rs: the invariant of the screen's state, requests and cancelling.
pub mod Keys
pub mod Arms
pub mod Commands
pub mod AgentKeys
use deptui.Prelude.{
  ℕ, ℤ, zero, suc, ◌+◌, ◌-◌, ◌≤◌, ◌<◌, ◌≡◌, refl, ◌∙◌, sym, ap, subst, String, Bool, true, false,
  ◌&&◌, Option, none, some, List, [], ◌∷◌, length, arith, All, if◌then◌else◌, is_some, ltb,
}
use deptui.Prelude.Text.{concat, decimal}
use deptui.Deploy.{Mode, ProfileSel}
use deptui.Tui.{
  App, InputMode, DeploySession, World, password_prompt, confirm_deploy, sudo_pre, emit, cancelled,
  aborted, clear_cached_password,
}
use deptui.Tui.Log.{push_log, push_log_tagged}
use deptui.Tui.Queue.{request_idle, request_deploy, deploy_targets, is_boot, is_home}
use deptui.Tui.Cancel.{cancel_session, cancel_deploy, record_last, last_of, cancel_message}
use deptui.Tui.Probes.{cancel_probes}
use deptui.Tui.Calm.{
  launched, armed, Bounded, InRange, Calm, Calm-refl, Calm-trans, Calm-push_log,
  Calm-push_log_tagged, calm_rules,
}
use deptui.Tui.Calm.Checks.{Calm-cancel_probes}

abbrev pub is_sudo_pre : InputMode → Bool
is_sudo_pre (password_prompt prompt buf sudo_pre) = true
is_sudo_pre _ = false

-- The running host and those done and waiting make up the batch.
abbrev pub Fits : Option DeploySession → Type 0
Fits none = Unit {0}
Fits (some s) = s.done + 1 + length s.queue ≡ s.total

pub record Sound (a : App) : Type 0 where
  pub modal : armed a.input ≡ true → a.deploy ≡ none
  pub stashed : is_sudo_pre a.input ≡ true → is_some a.pending_deploy ≡ true
  pub progress : Fits a.deploy
  pub bounded : Bounded a
  pub in_range : InRange a

-- No deploy is started, and the invariant is kept.
pub record Tame (a b : App) : Type 0 where
  pub launches : launched b.effects ≡ launched a.effects
  pub keeps : Sound a → Sound b

pub armed-sudo_pre : (m : InputMode) → is_sudo_pre m ≡ true → armed m ≡ true
armed-sudo_pre m h = ground arith

pub Sound-Calm : {a b : App} → Calm a b → Sound a → Sound b
Sound-Calm {a} {b} c h = record {
  modal = λ e. c.same_deploy ∙ h.modal (subst (λ m. armed m ≡ true) (c.disarmed e) e);
  stashed = λ e.
      let same : b.input ≡ a.input = c.disarmed (armed-sudo_pre b.input e) in
      ap is_some c.same_pending ∙ h.stashed (subst (λ m. is_sudo_pre m ≡ true) same e);
  progress = subst Fits (sym c.same_deploy) h.progress;
  bounded = c.logs h.bounded;
  in_range = c.cursors h.in_range;
}

pub Tame-Calm : {a b : App} → Calm a b → Tame a b
Tame-Calm c = record { launches = c.launches; keeps = Sound-Calm c }

pub Tame-trans : {a b c : App} → Tame a b → Tame b c → Tame a c
Tame-trans p q = record { launches = q.launches ∙ p.launches; keeps = λ h. q.keeps (p.keeps h) }

-- A confirmation opens only where no deploy is under way.
Tame-request_idle : (mode : Mode) (a : App) → a.deploy ≡ none → Tame a (request_idle mode a)
unfolding request_idle
Tame-request_idle mode a e = idle (is_boot mode && is_home a.profile_sel) (deploy_targets a)
  where
    idle :
        (b : Bool) (targets : List String)
        → Tame a (
            if b
            then push_log "! boot is not supported for the home-manager profile" true a
            else elim targets [
              | [] ↦ push_log "! no host selected" true a
              | h ∷ hosts ↦ record a { input = confirm_deploy (h ∷ hosts) mode a.profile_sel }
            ])
    idle true targets = Tame-Calm (Calm-push_log _ _ a)
    idle false [] = Tame-Calm (Calm-push_log _ _ a)
    idle false (x ∷ xs) = record {
      launches = refl;
      keeps = λ h. record {
        modal = λ armed. e;
        stashed = λ impossible. ground arith;
        progress = h.progress;
        bounded = h.bounded;
        in_range = h.in_range;
      };
    }

pub Tame-request_deploy : (mode : Mode) (a : App) → Tame a (request_deploy mode a)
unfolding request_deploy
Tame-request_deploy mode a = asked a.deploy refl
  where
    asked :
        (o : Option DeploySession)
        → a.deploy ≡ o
        → Tame a (elim o [
          | some session ↦ push_log "! a deploy is already running — press x to cancel" true a
          | none ↦ request_idle mode a
        ])
    asked none e = Tame-request_idle mode a e
    asked (some s) e = Tame-Calm (Calm-push_log _ _ a)

-- The end of a session.
Tame-ended :
    (s : DeploySession) (a : App)
    → Tame a
        (record (clear_cached_password
          (emit (if s.cancel then cancelled s.current else aborted s.current) a)) {
            deploy = none;
            busy_label = none;
          })
unfolding clear_cached_password emit
Tame-ended s a = record {
  launches = ground arith;
  keeps = λ h. record {
    modal = λ e. refl;
    stashed = h.stashed;
    progress = tt;
    bounded = h.bounded;
    in_range = h.in_range;
  };
}

pub Calm-record_last :
    (s : DeploySession) (code : ℤ) (ok : Bool) (a : App)
    → Calm a (record_last (last_of s code ok) a)
unfolding record_last
Calm-record_last s code ok a = ground arith

Tame-cancel_session : (s : DeploySession) (a : App) → Tame a (cancel_session s a)
unfolding cancel_session
Tame-cancel_session s a =
    let b : App =
      record (clear_cached_password
        (emit (if s.cancel then cancelled s.current else aborted s.current) a)) {
          deploy = none;
          busy_label = none;
        } in
    let c : App = push_log_tagged (cancel_message s.queue) true (some s.current) b in
    Tame-trans {b = b} (Tame-ended s a)
      (Tame-Calm (Calm-trans {b = c} (search calm_rules) (Calm-record_last s _ _ c)))

pub Tame-cancel_deploy : (w : World) (a : App) → Tame a (cancel_deploy w a)
unfolding cancel_deploy
Tame-cancel_deploy w a =
    Tame-trans (Tame-Calm (Calm-cancel_probes w a)) (stopped (cancel_probes w a).1.deploy)
  where
    b : App
    b = (cancel_probes w a).1

    stopped :
        (o : Option DeploySession)
        → Tame b (elim o [
          | some s ↦ cancel_session s b
          | none ↦
              if ltb 0 (cancel_probes w a).0
              then push_log
                  (concat
                    ("! cancelled " ∷ decimal (cancel_probes w a).0 ∷ " in-flight check(s)" ∷ []))
                  true
                  b
              else b
        ])
    stopped (some s) = Tame-cancel_session s b
    stopped none = Tame-Calm (search calm_rules)

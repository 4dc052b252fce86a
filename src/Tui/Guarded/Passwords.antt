-- ===== src/Tui/Guarded/Passwords.antt =====
-- crates/deptui/src/app.rs: the keys of a password prompt, for the invariant and for the starts
-- of deploys.
use deptui.Prelude.{
  ◌≡◌, refl, ◌∙◌, sym, ap, subst, inr, String, true, false, Option, none, some, List, arith,
  if◌then◌else◌,
}
use deptui.Deploy.{Mode, ProfileSel}
use deptui.Tui.{
  App, DeploySession, PromptSource, normal, password_prompt, askpass, sudo, sudo_pre,
  clear_cached_password, set_cached_password, sent_askpass, sent_stdin, emit,
}
use deptui.Tui.Log.{push_log}
use deptui.Tui.Modal.{Key, KeyCode, is_key, edit, set_input}
use deptui.Tui.Passwords.{
  send_sudo, start_pending, submit_password, dismiss_password, handle_key_password_prompt,
}
use deptui.Tui.Calm.{armed, Calm, Calm-trans, Calm-if, Calm-push_log, logged, ◌▹◌}
use deptui.Tui.Calm.Modals.{moded}
use deptui.Tui.Sound.{Sound, Sound-Calm, Tame, Fits, is_sudo_pre, armed-sudo_pre}
use deptui.Tui.Guarded.{
  Agreed, password_given, Handled, Handled-Tame, Handled-Calm, choose-Fitting, Sound-confirmed,
  unarmed,
}

Calm-send : (pw : String) (a : App) → Calm a (send_sudo pw a)
unfolding send_sudo emit
Calm-send pw a = sent a.deploy
  where
    sent :
        (o : Option DeploySession)
        → Calm a (elim o [
          | none ↦ push_log "! no stdin channel available for sudo password" true a
          | some s ↦
              if s.stdin_tx
              then emit (sent_stdin pw) a
              else push_log "! no stdin channel available for sudo password" true a
        ])
    sent none = Calm-push_log _ _ a
    sent (some s) = Calm-if _ a (emit (sent_stdin pw) a) _ (ground arith) (Calm-push_log _ _ a)

Calm-cached : (pw : String) (a : App) → Calm a (set_cached_password pw a)
unfolding set_cached_password
Calm-cached pw a = ground arith

Calm-cleared : (a : App) → Calm a (clear_cached_password a)
unfolding clear_cached_password
Calm-cleared a = ground arith

Calm-emitted : (pw : String) (a : App) → Calm a (emit (sent_askpass pw) a)
unfolding emit
Calm-emitted pw a = ground arith

-- Where no mode is armed, a stashed request may go.
Sound-unstashed :
    (b : App) → armed b.input ≡ false → Sound b → Sound (record b { pending_deploy = none })
Sound-unstashed b e h = record {
  modal = h.modal;
  stashed = λ i. cc (armed-sudo_pre b.input i, e);
  progress = h.progress;
  bounded = h.bounded;
  in_range = h.in_range;
}

-- A prompt in which something was typed.
Tame-typed :
    {a : App} {prompt buf : String} {source : PromptSource} (buf' : String)
    → a.input ≡ password_prompt prompt buf source
    → Tame a (set_input (password_prompt prompt buf' source) a)
unfolding set_input
Tame-typed buf' e = record {
  launches = refl;
  keeps = λ h. record {
    modal = λ i. h.modal (ap armed e ∙ i);
    stashed = λ i. h.stashed (ap is_sudo_pre e ∙ i);
    progress = h.progress;
    bounded = h.bounded;
    in_range = h.in_range;
  };
}

-- The request is dropped with its prompt.
Tame-withdrawn :
    (text : String) (a : App)
    → Tame a (
        set_input normal
          (push_log text false (record (clear_cached_password a) { pending_deploy = none })))
unfolding set_input clear_cached_password
Tame-withdrawn text a =
    let b : App = record a { cached_password = none; pending_deploy = none } in
    let c : Calm b (push_log text false b) = Calm-push_log text false b in
    record {
      launches = c.launches;
      keeps = λ h. record {
        modal = λ i. cc;
        stashed = λ i. cc;
        progress = subst Fits (sym c.same_deploy) h.progress;
        bounded = c.logs h.bounded;
        in_range = c.cursors h.in_range;
      };
    }

module _ (a : App) (key : Key) where
  Handled-pending :
      (o : Option (List String × Mode × ProfileSel)) (b : App)
      → (Sound a → Agreed a key)
      → armed b.input ≡ false
      → Calm a b
      → Handled (Agreed a key) a (start_pending o b)
  unfolding start_pending
  Handled-pending none b agreed e c = Handled-Calm c
  Handled-pending (some (hosts, mode, profile)) b agreed e c = record {
    keeps = λ h.
        Sound-confirmed hosts mode profile (record b { pending_deploy = none }) e
          (Sound-unstashed b e (Sound-Calm c h));
    starts = λ h. inr (agreed h);
  }

  Handled-submit :
      (prompt buf : String) (source : PromptSource)
      → a.input ≡ password_prompt prompt buf source
      → is_key KeyCode.enter key.code ≡ true
      → Handled (Agreed a key) a (submit_password buf source a)
  unfolding submit_password
  Handled-submit prompt buf askpass e k =
      let b : App = set_cached_password buf a in
      let c : App = emit (sent_askpass buf) b in
      Handled-Calm (moded normal refl (Calm-trans {b = b} (Calm-cached buf a) (Calm-emitted buf b)))
  Handled-submit prompt buf sudo e k =
      let b : App = set_cached_password buf a in
      Handled-Calm (moded normal refl (Calm-trans {b = b} (Calm-cached buf a) (Calm-send buf b)))
  Handled-submit prompt buf sudo_pre e k =
      let b : App = set_cached_password buf a in
      Handled-pending a.pending_deploy (set_input normal b)
        (λ h. password_given prompt buf e k (h.modal (ap armed e))) (unarmed b)
        (moded normal refl (Calm-cached buf a))

  Handled-dismiss : (source : PromptSource) → Handled (Agreed a key) a (dismiss_password source a)
  unfolding dismiss_password
  Handled-dismiss askpass =
      let b : App = clear_cached_password a in
      Handled-Calm
        (moded normal refl (logged _ _ (Calm-trans {b = b} (Calm-cleared a) (Calm-emitted "" b))))
  Handled-dismiss sudo = Handled-Calm (moded normal refl (logged _ _ (Calm-cleared a)))
  Handled-dismiss sudo_pre = Handled-Tame (Tame-withdrawn _ a)

  pub Handled-password :
      (prompt buf : String) (source : PromptSource)
      → a.input ≡ password_prompt prompt buf source
      → Handled (Agreed a key) a (handle_key_password_prompt key prompt buf source a)
  unfolding handle_key_password_prompt
  Handled-password prompt buf source e =
      choose-Fitting (Handled (Agreed a key) a) _ _
        ((λ k. Handled-submit prompt buf source e k) ▹ (λ k. Handled-dismiss source) ▹ tt)
        (Handled-Tame (Tame-typed (edit false key.code buf) e))

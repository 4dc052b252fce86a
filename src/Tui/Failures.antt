-- ===== src/Tui/Failures.antt =====
-- crates/deptui/src/app.rs: what a failed deploy leaves behind.
use deptui.Prelude.{
  ℤ, negsuc, ◌≡◌, refl, ◌∙◌, sym, subst, String, true, false, none, some, List, [], ◌∷◌, arith,
  eq_iff,
}
use deptui.Prelude.Map.{get, get-insert}
use deptui.Deploy.{LogLine, exit, error}
use deptui.Tui.{App, DeploySession, clear_cached_password}
use deptui.Tui.Log.{push_log_tagged, push_log_line, set_main_log}
use deptui.Tui.Cancel.{record_last, last_of}
use deptui.Tui.Lines.{
  handle_deploy_line, session_exited, session_broke, stop_batch, warn_dropped, close_session,
  dismiss_prompt, is_password_prompt, exit_ok, exit_banner, error_banner,
}

-- The lines with which a deploy fails, and the exit code that is kept for each.
pub data Failure : LogLine → ℤ → Type 0 where
  bad_exit : (code : ℤ) → exit_ok code ≡ false → Failure (exit code) code
  broken : (why : String) → Failure (error why) (negsuc 0)

-- The batch is over: nothing is sent or started, no deploy is under way, the password is forgotten,
-- the failure is kept, and no prompt stays open.
pub record Stopped (s : DeploySession) (code : ℤ) (a b : App) : Type 0 where
  pub silent : b.effects ≡ a.effects
  pub idle : b.deploy ≡ none
  pub forgotten : b.cached_password ≡ none
  pub kept : get s.current b.last_deploys ≡ some (last_of s code false)
  pub last : b.last_deploy ≡ some (last_of s code false)
  pub closed : is_password_prompt b.input ≡ false

-- What a warning about dropped hosts leaves alone.
Stopped-dropped :
    {s : DeploySession} {code : ℤ} {a b : App} (why : String) (queue : List String) (host : String)
    → Stopped s code a b
    → Stopped s code a (warn_dropped why queue host b)
unfolding warn_dropped push_log_tagged push_log_line set_main_log
Stopped-dropped why [] host h = h
Stopped-dropped why (q ∷ queue) host h = record {
  silent = h.silent;
  idle = h.idle;
  forgotten = h.forgotten;
  kept = h.kept;
  last = h.last;
  closed = h.closed;
}

dismissed : (a : App) → (dismiss_prompt a).effects ≡ a.effects
unfolding dismiss_prompt
dismissed a = ground arith

dismissed_deploy : (a : App) → (dismiss_prompt a).deploy ≡ a.deploy
unfolding dismiss_prompt
dismissed_deploy a = ground arith

dismissed_prompt : (a : App) → is_password_prompt (dismiss_prompt a).input ≡ false
unfolding dismiss_prompt is_password_prompt
dismissed_prompt a = ground arith

Stopped-closed :
    (banner : String) (s : DeploySession) (code : ℤ) (a : App)
    → Stopped s code a (clear_cached_password (close_session banner s code false a))
unfolding close_session clear_cached_password record_last last_of push_log_tagged push_log_line
    set_main_log
Stopped-closed banner s code a =
    let b : App = push_log_tagged banner true (some s.current) (record a { deploy = none }) in
    record {
      silent = dismissed b;
      idle = dismissed_deploy b;
      forgotten = refl;
      kept = get-insert s.current s.current _ _ ∙ ground (arith, eq_iff s.current s.current);
      last = refl;
      closed = dismissed_prompt b;
    }

-- The end of the child of a session that the screen knows.
module _ (a : App) (s : DeploySession) (running : a.deploy ≡ some s) where
  pub exit-running : (code : ℤ) → handle_deploy_line (exit code) a ≡ session_exited s code a
  unfolding handle_deploy_line
  exit-running code = rw running refl

  error-running : (why : String) → handle_deploy_line (error why) a ≡ session_broke s why a
  unfolding handle_deploy_line
  error-running why = rw running refl

Stopped-exited :
    (a : App) (s : DeploySession) (code : ℤ)
    → exit_ok code ≡ false
    → Stopped s code a (session_exited s code a)
unfolding session_exited stop_batch
Stopped-exited a s code bad =
    rw bad (Stopped-dropped _ s.queue s.current (Stopped-closed (exit_banner code) s code a))

Stopped-broke :
    (a : App) (s : DeploySession) (why : String) → Stopped s (negsuc 0) a (session_broke s why a)
unfolding session_broke
Stopped-broke a s why =
    Stopped-dropped _ s.queue s.current (Stopped-closed (error_banner why) s (negsuc 0) a)

-- When the deploy under way exits with a code other than 0 or breaks, the batch is over: nothing is
-- started and nothing is sent, no deploy is under way, the cached password is forgotten, the
-- failure is kept as the host's last deploy and as the last of all, and no password prompt stays
-- open.
pub handle_deploy_line-Stopped :
    (a : App) (s : DeploySession) (text : LogLine) (code : ℤ)
    → a.deploy ≡ some s
    → Failure text code
    → Stopped s code a (handle_deploy_line text a)
handle_deploy_line-Stopped a s text code running (bad_exit _ bad) =
    subst (Stopped s code a) (sym (exit-running a s running code)) (Stopped-exited a s code bad)
handle_deploy_line-Stopped a s text code running (broken why) =
    subst (Stopped s code a) (sym (error-running a s running why)) (Stopped-broke a s why)

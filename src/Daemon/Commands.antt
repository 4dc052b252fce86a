-- ===== src/Daemon/Commands.antt =====
-- crates/deptui-agent/src/daemon.rs: `handle_cmd` and the timer rounds keep the invariant.
use deptui.Prelude.{
  String, ◌≡◌, refl, Bool, true, false, not, Option, none, some, List, [], ◌∷◌, if◌then◌else◌,
  is_some, is_none, arith,
}
use deptui.Prelude.Text.{concat, join}
use deptui.Prelude.Result.{Result, ok, err}
use deptui.State.{AgentState, update_watch, watch_state, host_state}
use deptui.Runner.{RunPlan}
use deptui.Daemon.{
  Scope, global, one_watch, one_host, Daemon, System, RunningRun, return, here, modify, save_state,
  watch_cfg, ◌>>=◌,
}
use deptui.Daemon.Control.{
  owners, host_paused_text, pause_in, pause, commit, set_paused, approval_watch, configures,
  approval, ensure_host, set_approved, approve_in, approve, cancel_at, cancel_run, kick_names,
  kick_all, kick,
}
use deptui.Daemon.Handle.{validate_at, start_validation}
use deptui.Daemon.Poll.{request_poll}
use deptui.Daemon.Keeps.{Keeps, Keeps-return, Keeps-if, Keeps-here, Keeps-save_state, Keeps-bind}
use deptui.Daemon.Sound.{Sound, Keeps-request}
use deptui.Daemon.Invariant.{Sound-state, Keeps-state}
use deptui.Effects.{Env}

pause_in-number :
    (host : String) (paused : Bool) (watches : List String) (st : AgentState)
    → (pause_in host paused watches st).next_run_id ≡ st.next_run_id
unfolding pause_in update_watch
pause_in-number host paused [] st = refl
pause_in-number host paused (w ∷ rest) st = pause_in-number host paused rest _

abbrev SameNumber : Daemon → Result (AgentState × String) → Type 0
SameNumber d (ok p) = p.0.next_run_id ≡ d.state.next_run_id
SameNumber d (err e) = Unit {0}

same_hosts :
    (d : Daemon) (h : String) (paused : Bool) (names : List String)
    → SameNumber d (elim names [
      | [] ↦ err (concat ("no watch configures host `" ∷ h ∷ "`" ∷ []))
      | w ∷ ws ↦ ok (pause_in h paused (w ∷ ws) d.state, host_paused_text d h paused (w ∷ ws))
    ])
same_hosts d h paused [] = tt
same_hosts d h paused (w ∷ ws) = pause_in-number h paused (w ∷ ws) d.state

same_watch :
    (d : Daemon) (w : String) (paused b : Bool) (e t : String)
    → SameNumber d
        (if b then err e else ok (update_watch w (λ ws. record ws { paused = paused }) d.state, t))
unfolding update_watch
same_watch d w paused true e t = tt
same_watch d w paused false e t = refl

pause-number : (d : Daemon) (scope : Scope) (paused : Bool) → SameNumber d (pause d scope paused)
unfolding pause
pause-number d global paused = refl
pause-number d (one_watch w) paused = same_watch d w paused (is_none (watch_cfg d w)) _ _
pause-number d (one_host h) paused = same_hosts d h paused (owners d.cfg h)

commit-Sound :
    (r : Result (AgentState × String)) (s : System)
    → SameNumber s.daemon r
    → Sound s.daemon s.runs
    → Sound (commit r s).1.daemon (commit r s).1.runs
unfolding commit return modify save_state ◌>>=◌
commit-Sound (err e) s e' h = h
commit-Sound (ok (st, t)) s e' h = Sound-state s.daemon s.runs st e' h

pub Keeps-set_paused : (scope : Scope) (paused : Bool) → Keeps Sound (set_paused scope paused)
unfolding set_paused here ◌>>=◌
Keeps-set_paused scope paused = record {
  at = λ s h. commit-Sound (pause s.daemon scope paused) s (pause-number s.daemon scope paused) h;
}

Keeps-approval :
    (watch host : String) (r : Result (Bool × String))
    → Keeps Sound (elim r [
      | err e ↦ return (err e)
      | ok result ↦
          (modify (λ d. record d { state = set_approved watch host result.0 d.state }) >>= λ u.
          save_state >>= λ v. return (ok result.1))
    ])
unfolding set_approved update_watch
Keeps-approval watch host (err e) = Keeps-return Sound (err e)
Keeps-approval watch host (ok result) =
    Keeps-bind Sound _ _ (Keeps-state (set_approved watch host result.0) λ st. refl)
      λ u. Keeps-bind Sound save_state _ (Keeps-save_state Sound) λ v. Keeps-return Sound _

Keeps-approve_in :
    (watch host : String) (revoke : Bool) → Keeps Sound (approve_in watch host revoke)
unfolding approve_in ensure_host update_watch
Keeps-approve_in watch host revoke =
    Keeps-bind Sound _ _ (Keeps-state (ensure_host watch host) λ st. refl) λ u.
      Keeps-bind Sound here _ (Keeps-here Sound) λ d.
        Keeps-approval watch host
          (approval host revoke (host_state (watch_state d.state watch) host).approved)

Keeps-approved :
    (d : Daemon) (host : String) (revoke : Bool) (r : Result String)
    → Keeps Sound (elim r [
      | err e ↦ return (err e)
      | ok w ↦
          if not (configures d.cfg w host)
          then return
              (err (concat ("host `" ∷ host ∷ "` is not configured in watch `" ∷ w ∷ "`" ∷ [])))
          else approve_in w host revoke
    ])
Keeps-approved d host revoke (err e) = Keeps-return Sound (err e)
Keeps-approved d host revoke (ok w) =
    Keeps-if Sound (not (configures d.cfg w host)) _ _ (Keeps-return Sound _)
      (Keeps-approve_in w host revoke)

pub Keeps-approve :
    (watch : Option String) (host : String) (revoke : Bool)
    → Keeps Sound (approve watch host revoke)
unfolding approve
Keeps-approve watch host revoke =
    Keeps-bind Sound here _ (Keeps-here Sound)
      λ d. Keeps-approved d host revoke (approval_watch d.cfg watch host)

Sound-sent :
    (r : RunningRun) (s : System)
    → s.daemon.running ≡ some r
    → Sound s.daemon s.runs
    → Sound (record s.daemon { running = some (record r { cancel_sent = true }) }) s.runs
Sound-sent r s e h = record {
  orderly = record { one = ground arith; distinct = h.orderly.distinct; fresh = h.orderly.fresh };
  queued = refl;
}

Sound-cancel :
    (o : Option RunningRun) (s : System)
    → s.daemon.running ≡ o
    → Sound s.daemon s.runs
    → Sound (cancel_at o s).1.daemon (cancel_at o s).1.runs
unfolding cancel_at return modify ◌>>=◌
Sound-cancel none s e h = h
Sound-cancel (some r) s e h = Sound-sent r s e h

pub Keeps-cancel : Keeps Sound cancel_run
unfolding cancel_run here ◌>>=◌
Keeps-cancel = record { at = λ s h. Sound-cancel s.daemon.running s refl h }

Sound-validating :
    (d : Daemon) (runs : List (String × RunPlan))
    → is_some d.running ≡ false
    → Sound d runs
    → Sound (record d { validating = true }) runs
Sound-validating d runs e h = record {
  orderly = record { one = ground arith; distinct = h.orderly.distinct; fresh = h.orderly.fresh };
  queued = ground arith;
}

Sound-validate :
    (a b : Bool) (s : System)
    → is_some s.daemon.running ≡ a
    → Sound s.daemon s.runs
    → Sound (validate_at a b s).1.daemon (validate_at a b s).1.runs
unfolding validate_at return modify ◌>>=◌
Sound-validate true b s e h = h
Sound-validate false true s e h = h
Sound-validate false false s e h = Sound-validating s.daemon s.runs e h

pub Keeps-validate : Keeps Sound start_validation
unfolding start_validation here ◌>>=◌
Keeps-validate = record {
  at = λ s h. Sound-validate (is_some s.daemon.running) s.daemon.validating s refl h;
}

module _ (env : Env) where
  Keeps-kick_all : (names : List String) → Keeps Sound (kick_all env names)
  unfolding kick_all
  Keeps-kick_all [] = Keeps-return Sound tt
  Keeps-kick_all (name ∷ rest) =
      Keeps-bind Sound (request_poll env name "kick") _ (Keeps-request env name "kick")
        λ u. Keeps-kick_all rest

  Keeps-kicked :
      (r : Result (List String))
      → Keeps Sound (elim r [
        | err e ↦ return (err e)
        | ok names ↦
            (kick_all env names >>= λ u. return (ok (concat ("kicked: " ∷ join ", " names ∷ []))))
      ])
  Keeps-kicked (err e) = Keeps-return Sound (err e)
  Keeps-kicked (ok names) =
      Keeps-bind Sound (kick_all env names) _ (Keeps-kick_all names) λ u. Keeps-return Sound _

  pub Keeps-kick : (watch : Option String) → Keeps Sound (kick env watch)
  unfolding kick
  Keeps-kick watch =
      Keeps-bind Sound here _ (Keeps-here Sound) λ d. Keeps-kicked (kick_names d watch)

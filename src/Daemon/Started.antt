-- ===== src/Daemon/Started.antt =====
-- crates/deptui-agent/src/daemon.rs: the orchestrator's invariant from the start of the daemon on.
use deptui.Prelude.{ℕ, String, ◌≡◌, refl, subst, false, Option, none, List, [], ◌∷◌, arith}
use deptui.Prelude.Map.{Map}
use deptui.Prelude.Result.{Result, ok, err, try_result}
use deptui.Config.{AgentConfig, Cadence}
use deptui.State.{AgentState}
use deptui.State.Load.{StateFile, load_state}
use deptui.Daemon.{Clocks, Daemon, System, here, schedule_recheck}
use deptui.Daemon.Startup.{first_polls, new_daemon, resumed, resume_all, resume_rechecks}
use deptui.Daemon.Keeps.{Keeps, Keeps-return, Keeps-here, Keeps-bind}
use deptui.Daemon.Sound.{Sound}
use deptui.Daemon.Invariant.{Sound-recheck}
use deptui.Daemon.Safety.{Reaches, Reaches-Sound}
use deptui.Effects.{Env, Call, Machine}

-- A system that has done nothing yet.
abbrev pub fresh_system : Daemon → Machine → System
fresh_system d m = record { daemon = d; machine = m; saves = []; runs = [] }

Sound-new : (d : Daemon) → d.running ≡ none → d.validating ≡ false → d.pending ≡ [] → Sound d []
Sound-new d hr hv hp = record {
  orderly = record { one = ground arith; distinct = rw (hp) tt; fresh = tt };
  queued = rw (hp) (ground arith);
}

abbrev Idle : Result Daemon → Type 0
Idle (ok d) = (d.running ≡ none) × (d.validating ≡ false) × (d.pending ≡ [])
Idle (err e) = Unit {0}

Idle-at : (r : Result Daemon) (d : Daemon) → r ≡ ok d → Idle r → Idle (ok d)
Idle-at r d e h = subst Idle e h

module _ (parse_cron : String → Result (Unit {0})) (clocks : Clocks) (calls : List Call) where
  Idle-maps :
      (cfg : AgentConfig) (st : AgentState) (pubkey : Option String)
      (r : Result (Map Cadence × Map ℕ))
      → Idle (
          try_result r λ maps. ok (record {
            cfg = cfg;
            state = st;
            cadences = maps.0;
            next_poll = maps.1;
            recheck_at = [];
            running = none;
            validating = false;
            pending = [];
            restart_wanted = false;
            pubkey = pubkey;
          }))
  Idle-maps cfg st pubkey (ok maps) = (refl, refl, refl)
  Idle-maps cfg st pubkey (err e) = tt

  Idle-new :
      (cfg : AgentConfig) (pubkey : Option String) (r : Result AgentState)
      → Idle (
          try_result r λ state.
            try_result (first_polls parse_cron clocks calls cfg.watches [] []) λ maps. ok (record {
              cfg = cfg;
              state = state;
              cadences = maps.0;
              next_poll = maps.1;
              recheck_at = [];
              running = none;
              validating = false;
              pending = [];
              restart_wanted = false;
              pubkey = pubkey;
            }))
  Idle-new cfg pubkey (ok st) =
      Idle-maps cfg st pubkey (first_polls parse_cron clocks calls cfg.watches [] [])
  Idle-new cfg pubkey (err e) = tt

  Idle-daemon :
      (cfg : AgentConfig) (file : StateFile) (pubkey : Option String)
      → Idle (new_daemon parse_cron clocks calls cfg file pubkey)
  unfolding new_daemon
  Idle-daemon cfg file pubkey = Idle-new cfg pubkey (load_state cfg.state_dir file)

  Sound-started :
      (cfg : AgentConfig) (file : StateFile) (pubkey : Option String) (d : Daemon)
      → new_daemon parse_cron clocks calls cfg file pubkey ≡ ok d
      → Sound d []
  Sound-started cfg file pubkey d e =
      let h =
        Idle-at (new_daemon parse_cron clocks calls cfg file pubkey) d e
          (Idle-daemon cfg file pubkey) in
      Sound-new d h.0 h.1 h.2

  Sound-resume_all : (env : Env) (names : List String) → Keeps Sound (resume_all clocks names)
  unfolding resume_all
  Sound-resume_all env [] = Keeps-return Sound tt
  Sound-resume_all env (w ∷ rest) =
      Keeps-bind Sound (schedule_recheck clocks w) _ (Sound-recheck env clocks w)
        λ u. Sound-resume_all env rest

  Sound-resume : (env : Env) → Keeps Sound (resume_rechecks clocks)
  unfolding resume_rechecks
  Sound-resume env =
      Keeps-bind Sound here _ (Keeps-here Sound) λ d. Sound-resume_all env (resumed d.state.watches)

  -- The orchestrator's invariant holds in every state that commands and timer rounds lead to after
  -- a daemon was started from any configuration and any state file and has resumed its rechecks.
  pub new_daemon-Sound :
      (env : Env) (version : String) (cfg : AgentConfig) (file : StateFile) (pubkey : Option String)
      (d : Daemon) (m : Machine) (t : System)
      → new_daemon parse_cron clocks calls cfg file pubkey ≡ ok d
      → Reaches env clocks version (resume_rechecks clocks (fresh_system d m)).1 t
      → Sound t.daemon t.runs
  new_daemon-Sound env version cfg file pubkey d m t e r =
      Reaches-Sound env clocks version r
        ((Sound-resume env).at (fresh_system d m) (Sound-started cfg file pubkey d e))

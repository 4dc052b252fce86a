-- ===== src/Daemon/Startup.antt =====
-- crates/deptui-agent/src/daemon.rs: `new`, and the rechecks that `run` resumes before its loop.
use deptui.Prelude.{
  ℕ, String, Bool, true, false, Option, none, List, [], ◌∷◌, if◌then◌else◌, is_some,
}
use deptui.Prelude.Map.{Map, insert}
use deptui.Prelude.Result.{Result, ok, try_result}
use deptui.Config.{AgentConfig, WatchConfig, Cadence}
use deptui.Config.Validate.{cadence}
use deptui.State.{WatchState, HostState}
use deptui.State.Load.{StateFile, load_state}
use deptui.Daemon.{Clocks, Daemon, Task, return, here, next_firing, schedule_recheck, ◌>>=◌, ◌>>◌}
use deptui.Effects.{Call}

module _ (parse_cron : String → Result (Unit {0})) (clocks : Clocks) (calls : List Call) where
  -- The loop over the watches: the first poll follows the cadence.
  unfoldable pub first_polls : List WatchConfig → Map Cadence → Map ℕ → Result (Map Cadence × Map ℕ)
  unfolding cadence next_firing
  first_polls [] cadences polls = ok (cadences, polls)
  first_polls (w ∷ rest) cadences polls = try_result (cadence parse_cron w) λ c.
      first_polls rest (insert w.name c cadences) (insert w.name (next_firing clocks calls c) polls)

  unfoldable pub new_daemon : AgentConfig → StateFile → Option String → Result Daemon
  unfolding load_state first_polls
  new_daemon cfg file pubkey = try_result (load_state cfg.state_dir file) λ state.
      try_result (first_polls cfg.watches [] []) λ maps. ok (record {
        cfg = cfg;
        state = state;
        cadences = maps.0;
        next_poll = maps.1;
        recheck_at = [];
        running = none;
        validating = false;
        pending = [];
        restart_wanted = false;
        pubkey = pubkey;
      })

any_offline : Map HostState → Bool
any_offline [] = false
any_offline ((name, hs) ∷ rest) =
    let more = any_offline rest in if is_some hs.offline then true else more

-- The watches with a host whose update is pending.
unfoldable pub resumed : Map WatchState → List String
unfolding any_offline
resumed [] = []
resumed ((name, ws) ∷ rest) =
    let more = resumed rest in if any_offline ws.hosts then name ∷ more else more

unfoldable pub resume_all : Clocks → List String → Task (Unit {0})
unfolding schedule_recheck return ◌>>=◌
resume_all clocks [] = return tt
resume_all clocks (w ∷ rest) = do schedule_recheck clocks w; resume_all clocks rest

unfoldable pub resume_rechecks : Clocks → Task (Unit {0})
unfolding resume_all resumed here ◌>>=◌
resume_rechecks clocks = do d ← here; resume_all clocks (resumed d.state.watches)

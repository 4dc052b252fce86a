-- ===== src/Daemon.antt =====
-- crates/deptui-agent/src/daemon.rs: the orchestrator's state, and what it does to the world. A
-- system is the daemon with the machine that its calls go through, the states that it has written
-- to disk and the runs that it has spawned, newest first.
pub mod Plan
pub mod Poll
pub mod Finish
pub mod Control
pub mod Due
pub mod Report
pub mod Rounds
pub mod Needs
pub mod Cycle
pub mod Keeps
pub mod Polled
pub mod Sound
pub mod Invariant
pub mod Commands
pub mod Safety
pub mod Startup
pub mod Started
pub mod Busy
pub mod Folded
pub mod Finished
pub mod Kicked
pub mod Approvals
pub mod Histories
pub mod Handle
use deptui.Prelude.{
  ℕ, ◌+◌, ◌*◌, String, Bool, ◌&&◌, not, Option, none, some, List, [], ◌∷◌, ◌==◌, if◌then◌else◌,
  is_some, is_none, find_by, length, same_number,
}
use deptui.Prelude.Map.{Map, get, insert}
use deptui.Prelude.Result.{Result, ok, err, result_or}
use deptui.Config.{AgentConfig, WatchConfig, Cadence, every, cron, recheck_interval}
use deptui.State.{AgentState, RunRecord}
use deptui.Runner.{RunPlan}
use deptui.Effects.{Env, Call, Machine, Act, said}

pub data Scope : Type 0 where
  global : Scope
  one_watch : String → Scope
  one_host : String → Scope

pub data Cmd : Type 0 where
  status : Cmd
  history : Option String → Cmd
  run_log : String → Option ℕ → Cmd
  kick : Option String → Cmd
  set_paused : Scope → Bool → Cmd
  approve : Option String → String → Bool → Cmd
  validate validate_done cancel_run : Cmd
  run_done : String → RunRecord → Cmd

-- `cancel_sent` is the value of the run's cancel channel.
pub record RunningRun : Type 0 where
  pub watch : String
  pub rev : String
  pub trigger : String
  pub started : ℕ
  pub run_id : ℕ
  pub cancel_sent : Bool

pub record Daemon : Type 0 where
  pub cfg : AgentConfig
  pub state : AgentState
  pub cadences : Map Cadence
  pub next_poll : Map ℕ
  pub recheck_at : Map ℕ
  pub running : Option RunningRun
  pub validating : Bool
  pub pending : List (String × String)
  pub restart_wanted : Bool
  pub pubkey : Option String

-- The clocks: instants and cron schedules. `cron_delay` is the time to the next firing, `some none`
-- where it is no duration, `none` where there is no firing any more.
pub record Clocks : Type 0 where
  pub instant : List Call → ℕ
  pub cron_delay : List Call → String → Option (Option ℕ)

pub record System : Type 0 where
  pub daemon : Daemon
  pub machine : Machine
  pub saves : List AgentState
  pub runs : List (String × RunPlan)

abbrev pub Task : Type 0 → Type 0
Task A = System → A × System

unfoldable pub return : {A : Type 0} → A → Task A
return a s = (a, s)

infixl 10 ◌>>=◌ ◌>>◌
unfoldable pub ◌>>=◌ : {A B : Type 0} → Task A → (A → Task B) → Task B
unfolding return
◌>>=◌ t f s = let (a, s') = t s in f a s'

abbrev pub ◌>>◌ : {A B : Type 0} → Task A → Task B → Task B
a >> b = a >>= λ _. b

unfoldable pub act : {A : Type 0} → Act A → Task (Result A)
act a s = let (r, m) = a s.machine in (r, record s { machine = m })

-- The daemon as it stands.
unfoldable pub here : Task Daemon
here s = (s.daemon, s)

unfoldable pub modify : (Daemon → Daemon) → Task (Unit {0})
modify f s = (tt, record s { daemon = f s.daemon })

-- A question to the clocks or the environment that leaves no trace.
unfoldable pub now : {A : Type 0} → (List Call → A) → Task A
now f s = (f s.machine.calls, s)

-- A line on the log channel, outside any run's record.
unfoldable pub announce : String → Task (Unit {0})
announce text s =
    (tt, record s { machine = record s.machine { calls = said text ∷ s.machine.calls } })

unfoldable pub save_state : Task (Unit {0})
save_state s = (tt, record s { saves = s.daemon.state ∷ s.saves })

unfoldable pub watch_cfg : Daemon → String → Option WatchConfig
watch_cfg d name = find_by (λ w. w.name == name) d.cfg.watches

unfoldable pub idle : Daemon → Bool
idle d = is_none d.running && not d.validating && same_number (length d.pending) 0

abbrev pub year : ℕ
year = 86400 * 365

-- When a cadence fires next.
unfoldable pub next_firing : Clocks → List Call → Cadence → ℕ
next_firing clocks calls (every d) = clocks.instant calls + d
next_firing clocks calls (cron expr) = elim (clocks.cron_delay calls expr) [
  | none ↦ clocks.instant calls + year
  | some delay ↦ elim delay [
    | none ↦ clocks.instant calls + 60
    | some secs ↦ clocks.instant calls + secs
  ]
]

unfoldable pub poll_entry : Clocks → String → System → Option Cadence → Unit {0} × System
unfolding next_firing
poll_entry clocks watch s none = (tt, s)
poll_entry clocks watch s (some cadence) = (
  tt,
  record s {
    daemon = record s.daemon {
      next_poll = insert watch (next_firing clocks s.machine.calls cadence) s.daemon.next_poll;
    };
  },
)

unfoldable pub reschedule : Clocks → String → Task (Unit {0})
unfolding poll_entry
reschedule clocks watch s = poll_entry clocks watch s (get watch s.daemon.cadences)

unfoldable pub recheck_entry : Clocks → String → System → Option WatchConfig → Unit {0} × System
recheck_entry clocks watch s none = (tt, s)
recheck_entry clocks watch s (some w) = (
  tt,
  record s {
    daemon = record s.daemon {
      recheck_at =
          insert watch (clocks.instant s.machine.calls + result_or (recheck_interval w) 120)
            s.daemon.recheck_at;
    };
  },
)

unfoldable pub schedule_recheck : Clocks → String → Task (Unit {0})
unfolding recheck_entry watch_cfg
schedule_recheck clocks watch s = recheck_entry clocks watch s (watch_cfg s.daemon watch)

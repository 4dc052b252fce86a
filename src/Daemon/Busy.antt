-- ===== src/Daemon/Busy.antt =====
-- crates/deptui-agent/src/daemon.rs: the guards of `request_poll`, and what becomes of the polls that
-- waited when a run starts.
use deptui.Prelude.{
  String, ◌≡◌, ◌≢◌, refl, sym, ap, ◌∙◌, Bool, true, false, ◌&&◌, not, Option, none, some, List, [],
  ◌∷◌, if◌then◌else◌, is_some, arith,
}
use deptui.Config.{WatchConfig}
use deptui.State.{watch_state}
use deptui.Runner.{PlanHost, RunPlan}
use deptui.Daemon.{
  Clocks, Daemon, System, Task, RunningRun, return, here, modify, save_state, watch_cfg, ◌>>=◌,
  ◌>>◌,
}
use deptui.Daemon.Poll.{spawn_run, fresh_run_id, record_head, poll_head, request_poll}
use deptui.Daemon.Finish.{clear_pending, poll_taken, drain_pending}
use deptui.Daemon.Keeps.{Keeps}
use deptui.Daemon.Polled.{Keeps-poll_head}
use deptui.Daemon.Sound.{busy}
use deptui.Effects.{Env}

-- May a poll of the watch go to the remote?
abbrev pub may_poll : Daemon → String → Bool
may_poll d watch =
    not (busy d)
    && not d.state.paused
    && not (watch_state d.state watch).paused
    && is_some (watch_cfg d watch)

-- What a poll must leave alone that is refused or put off.
pub record Untouched (s t : System) : Type 0 where
  pub runs : t.runs ≡ s.runs
  pub saves : t.saves ≡ s.saves
  pub machine : t.machine ≡ s.machine
  pub running : t.daemon.running ≡ s.daemon.running
  pub state : t.daemon.state ≡ s.daemon.state

untouched : (s : System) → Untouched s s
untouched s = record { runs = refl; saves = refl; machine = refl; running = refl; state = refl }

Untouched-if :
    (s : System) (b : Bool) (x y : Unit {0} × System)
    → (b ≡ true → Untouched s x.1)
    → (b ≡ false → Untouched s y.1)
    → Untouched s (if b then x else y).1
Untouched-if s true x y hx hy = hx refl
Untouched-if s false x y hx hy = hy refl

abbrev poll_configured : Env → String → String → System → Option WatchConfig → Unit {0} × System
poll_configured env watch trigger s o = elim o [
  | none ↦ (tt, s)
  | some w ↦ poll_head env watch trigger w s
]

false_not_true : false ≢ true
false_not_true e = cc

module _ (env : Env) where
  unconfigured :
      (watch trigger : String) (o : Option WatchConfig) (s : System)
      → is_some o ≡ false
      → Untouched s (poll_configured env watch trigger s o).1
  unconfigured watch trigger none s h = untouched s
  unconfigured watch trigger (some w) s h = cc

  -- While a run or a validation is under way, while the agent or the watch is paused, and for a
  -- watch that is not configured, a poll makes no call, starts no run, writes nothing and leaves
  -- the running run and the state as they are.
  pub request_poll-refused :
      (watch trigger : String) (s : System)
      → may_poll s.daemon watch ≡ false
      → Untouched s (request_poll env watch trigger s).1
  unfolding request_poll
  request_poll-refused watch trigger s h =
      Untouched-if s (busy s.daemon) _ _
        (λ e. record { runs = refl; saves = refl; machine = refl; running = refl; state = refl })
        λ free.
          Untouched-if s s.daemon.state.paused _ _ (λ e. untouched s)
            λ awake.
              Untouched-if s (watch_state s.daemon.state watch).paused _ _ (λ e. untouched s)
                λ awake'. unconfigured watch trigger (watch_cfg s.daemon watch) s (ground arith)

abbrev NoneWait : Daemon → List (String × RunPlan) → Type 0
NoneWait d runs = d.pending ≡ []

none_wait_if :
    (b : Bool) (x y : Unit {0} × System)
    → (b ≡ true → x.1.daemon.pending ≡ [])
    → (b ≡ false → y.1.daemon.pending ≡ [])
    → (if b then x else y).1.daemon.pending ≡ []
none_wait_if true x y hx hy = hx refl
none_wait_if false x y hx hy = hy refl

module _ (env : Env) (clocks : Clocks) where
  NoneWait-spawn :
      (watch rev trigger : String) (hosts : List PlanHost)
      → Keeps NoneWait (
          fresh_run_id env >>= λ id.
          spawn_run env watch (record { run_id = id; rev = rev; trigger = trigger; hosts = hosts })
          >> save_state)
  unfolding fresh_run_id spawn_run save_state ◌>>=◌
  NoneWait-spawn watch rev trigger hosts = record { at = λ s h. h }

  NoneWait-head :
      (watch rev : String) (d : Daemon) (runs : List (String × RunPlan))
      → NoneWait d runs
      → NoneWait (record_head env watch rev d) runs
  unfolding record_head
  NoneWait-head watch rev d runs h = h

  none_wait_configured :
      (watch trigger : String) (o : Option WatchConfig) (s : System)
      → s.daemon.pending ≡ []
      → (poll_configured env watch trigger s o).1.daemon.pending ≡ []
  none_wait_configured watch trigger none s h = h
  none_wait_configured watch trigger (some w) s h =
      (Keeps-poll_head NoneWait env NoneWait-spawn NoneWait-head watch trigger w).at s h

  none_wait_request :
      (watch trigger : String) (s : System)
      → busy s.daemon ≡ false
      → s.daemon.pending ≡ []
      → (request_poll env watch trigger s).1.daemon.pending ≡ []
  unfolding request_poll
  none_wait_request watch trigger s hb h =
      none_wait_if (busy s.daemon) _ _ (λ e. absurd (false_not_true (sym hb ∙ e)))
        λ free.
          none_wait_if s.daemon.state.paused _ _ (λ e. h)
            λ awake.
              none_wait_if (watch_state s.daemon.state watch).paused _ _ (λ e. h)
                λ awake'. none_wait_configured watch trigger (watch_cfg s.daemon watch) s h

  stopped :
      (o : Option RunningRun) (run : RunningRun) (t : Task (Unit {0})) (s : System)
      → o ≡ some run
      → (elim o as (λ x. Task (Unit {0})) [ some r ↦ return tt | none ↦ t ] s).1 ≡ s
  unfolding return
  stopped none run t s e = cc
  stopped (some r) run t s e = refl

  poll_taken-first :
      (watch trigger : String) (rest : List (String × String)) (s : System) (run : RunningRun)
      → (request_poll env watch trigger s).1.daemon.running ≡ some run
      → (poll_taken env clocks ((watch, trigger) ∷ rest) s).1 ≡ (request_poll env watch trigger s).1
  unfolding poll_taken here return ◌>>=◌
  poll_taken-first watch trigger rest s run hr =
      stopped (request_poll env watch trigger s).1.daemon.running run (poll_taken env clocks rest)
        (request_poll env watch trigger s).1 hr

  poll_queue-first :
      (watch trigger : String) (queue rest : List (String × String)) (s : System) (run : RunningRun)
      → queue ≡ (watch, trigger) ∷ rest
      → (request_poll env watch trigger s).1.daemon.running ≡ some run
      → (poll_taken env clocks queue s).1 ≡ (request_poll env watch trigger s).1
  poll_queue-first watch trigger queue rest s run hq hr =
      ap (λ q. (poll_taken env clocks q s).1) hq ∙ poll_taken-first watch trigger rest s run hr

  -- The queue after the poll of its first watch.
  abbrev pub first_polled : String → String → System → System
  first_polled watch trigger s =
      (request_poll env watch trigger (record s { daemon = clear_pending s.daemon })).1

  -- If the daemon is not busy and the first poll that waited starts a run, then the drain of the
  -- queue is that poll alone, and the queue is empty afterwards: the other polls that waited are
  -- neither made nor put back.
  pub drain_pending-lost :
      (watch trigger : String) (rest : List (String × String)) (s : System) (run : RunningRun)
      → busy s.daemon ≡ false
      → s.daemon.pending ≡ (watch, trigger) ∷ rest
      → (first_polled watch trigger s).daemon.running ≡ some run
      → ((drain_pending env clocks s).1 ≡ first_polled watch trigger s)
        × ((first_polled watch trigger s).daemon.pending ≡ [])
  unfolding drain_pending clear_pending here modify ◌>>=◌
  drain_pending-lost watch trigger rest s run hb hp hr = (
    poll_queue-first watch trigger s.daemon.pending rest _ run hp hr,
    none_wait_request watch trigger (record s { daemon = clear_pending s.daemon }) hb refl,
  )

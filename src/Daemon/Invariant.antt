-- ===== src/Daemon/Invariant.antt =====
-- crates/deptui-agent/src/daemon.rs: every command and every timer round keeps the orchestrator's
-- invariant.
use deptui.Prelude.{ℕ, String, ◌≡◌, refl, Option, none, some, List, [], ◌∷◌, if◌then◌else◌, arith}
use deptui.Prelude.Map.{Map}
use deptui.Config.{WatchConfig}
use deptui.State.{AgentState, RunRecord, update_watch, push_run}
use deptui.Runner.{RunPlan}
use deptui.Daemon.{
  Clocks, Daemon, System, Task, RunningRun, return, here, modify, now, save_state, watch_cfg,
  recheck_entry, schedule_recheck, ◌>>=◌,
}
use deptui.Daemon.Finish.{
  settle_run, had_offline, clear_pending, end_validation, poll_taken, drain_pending, finish_run,
  finish_validation,
}
use deptui.Daemon.Poll.{request_poll}
use deptui.Daemon.Keeps.{
  Keeps, Keeps-return, Keeps-now, Keeps-if, Keeps-here, Keeps-save_state, Keeps-modify, Keeps-bind,
}
use deptui.Daemon.Sound.{Orderly, Sound, Keeps-request}
use deptui.Effects.{Env}

-- A new state that gives out the same next number.
pub Sound-state :
    (d : Daemon) (runs : List (String × RunPlan)) (st : AgentState)
    → st.next_run_id ≡ d.state.next_run_id
    → Sound d runs
    → Sound (record d { state = st }) runs
Sound-state d runs st e h = record {
  orderly = record {
    one = h.orderly.one;
    distinct = h.orderly.distinct;
    fresh = rw (e) h.orderly.fresh;
  };
  queued = h.queued;
}

pub Keeps-state :
    (f : AgentState → AgentState)
    → ((st : AgentState) → (f st).next_run_id ≡ st.next_run_id)
    → Keeps Sound (modify λ d. record d { state = f d.state })
Keeps-state f h = Keeps-modify Sound _ λ d runs. Sound-state d runs (f d.state) (h d.state)

-- What is kept from a finished run's record to the queue's drain.
Orderly-settled :
    (watch : String) (run : RunRecord) (time : ℕ) (d : Daemon) (runs : List (String × RunPlan))
    → Orderly d runs
    → Orderly (settle_run watch run time d) runs
unfolding settle_run push_run update_watch
Orderly-settled watch run time d runs h = record {
  one = refl;
  distinct = h.distinct;
  fresh = h.fresh;
}

Sound-cleared :
    (d : Daemon) (runs : List (String × RunPlan)) → Orderly d runs → Sound (clear_pending d) runs
unfolding clear_pending
Sound-cleared d runs h = record {
  orderly = record { one = h.one; distinct = tt; fresh = h.fresh };
  queued = ground arith;
}

module _ (J : Daemon → List (String × RunPlan) → Type 0)
    (kept : (d : Daemon) (m : Map ℕ) (runs : List (String × RunPlan))
      → J d runs
      → J (record d { recheck_at = m }) runs)
    (clocks : Clocks) where
  pub recheck_kept :
      (watch : String) (o : Option WatchConfig) (s : System)
      → J s.daemon s.runs
      → J (recheck_entry clocks watch s o).1.daemon (recheck_entry clocks watch s o).1.runs
  unfolding recheck_entry
  recheck_kept watch none s h = h
  recheck_kept watch (some w) s h = kept s.daemon _ s.runs h

pub record Clears (t : Task (Unit {0})) : Type 0 where
  pub at : (s : System) → Orderly s.daemon s.runs → Sound (t s).1.daemon (t s).1.runs

module _ (env : Env) (clocks : Clocks) where
  Keeps-running :
      (o : Option RunningRun) (t : Task (Unit {0}))
      → Keeps Sound t
      → Keeps Sound (elim o [ some run ↦ return tt | none ↦ t ])
  Keeps-running none t h = h
  Keeps-running (some run) t h = Keeps-return Sound tt

  Keeps-taken : (taken : List (String × String)) → Keeps Sound (poll_taken env clocks taken)
  unfolding poll_taken
  Keeps-taken [] = Keeps-return Sound tt
  Keeps-taken ((watch, trigger) ∷ rest) =
      Keeps-bind Sound (request_poll env watch trigger) _ (Keeps-request env watch trigger) λ u.
        Keeps-bind Sound here _ (Keeps-here Sound)
          λ d. Keeps-running d.running (poll_taken env clocks rest) (Keeps-taken rest)

  Clears-drain : Clears (drain_pending env clocks)
  unfolding drain_pending here modify ◌>>=◌
  Clears-drain = record {
    at = λ s h.
        (Keeps-taken s.daemon.pending).at (record s { daemon = clear_pending s.daemon })
          (Sound-cleared s.daemon s.runs h);
  }

  Orderly-recheck : (watch : String) → Keeps Orderly (schedule_recheck clocks watch)
  unfolding schedule_recheck
  Orderly-recheck watch = record {
    at = λ s h.
        recheck_kept Orderly
          (λ d m runs o. record { one = o.one; distinct = o.distinct; fresh = o.fresh }) clocks
          watch (watch_cfg s.daemon watch) s h;
  }

  Clears-bind :
      {A : Type 0}
      → (t : Task A) (f : A → Task (Unit {0})) → Keeps Orderly t
      → ((a : A) → Clears (f a))
      → Clears (t >>= f)
  unfolding ◌>>=◌
  Clears-bind t f ht hf = record { at = λ s h. (hf (t s).0).at (t s).1 (ht.at s h) }

  pub Clears-finish : (watch : String) (run : RunRecord) → Clears (finish_run env clocks watch run)
  unfolding finish_run
  Clears-finish watch run = Clears-bind (now _) _ (Keeps-now Orderly _) λ time.
      Clears-bind (modify (settle_run watch run time)) _
        (Keeps-modify Orderly _ (Orderly-settled watch run time))
        λ u. Clears-bind save_state _ (Keeps-save_state Orderly) λ v.
          Clears-bind (if had_offline run.hosts then schedule_recheck clocks watch else return tt) _
            (Keeps-if Orderly (had_offline run.hosts) _ _ (Orderly-recheck watch)
              (Keeps-return Orderly tt))
            λ w. Clears-drain

  pub Keeps-of_Clears : (t : Task (Unit {0})) → Clears t → Keeps Sound t
  Keeps-of_Clears t c = record { at = λ s h. c.at s h.orderly }

  pub Sound-recheck_at :
      (d : Daemon) (m : Map ℕ) (runs : List (String × RunPlan))
      → Sound d runs
      → Sound (record d { recheck_at = m }) runs
  Sound-recheck_at d m runs h = record {
    orderly = record {
      one = h.orderly.one;
      distinct = h.orderly.distinct;
      fresh = h.orderly.fresh;
    };
    queued = h.queued;
  }

  pub Sound-recheck : (watch : String) → Keeps Sound (schedule_recheck clocks watch)
  unfolding schedule_recheck
  Sound-recheck watch = record {
    at = λ s h. recheck_kept Sound Sound-recheck_at clocks watch (watch_cfg s.daemon watch) s h;
  }

  sound_ended :
      (d : Daemon) (runs : List (String × RunPlan))
      → Orderly d runs
      → Orderly (end_validation d) runs
  unfolding end_validation
  sound_ended d runs h = record { one = ground arith; distinct = h.distinct; fresh = h.fresh }

  pub Clears-validation : Clears (finish_validation env clocks)
  unfolding finish_validation
  Clears-validation =
      Clears-bind (modify end_validation) _ (Keeps-modify Orderly _ sound_ended) λ u. Clears-drain

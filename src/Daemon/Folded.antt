-- ===== src/Daemon/Folded.antt =====
-- crates/deptui-agent/src/daemon.rs: what a finished run leaves of each host (`finish_run`).
use deptui.Prelude.{
  ℕ, String, ◌≡◌, refl, ap, sym, ◌∙◌, Bool, true, false, Option, none, some, List, [], ◌∷◌, ◌==◌,
  arith, eq_iff, if◌then◌else◌, find_by, Bool-cases, inl, inr,
}
use deptui.State.{
  HostRun, RunRecord, HostState, WatchState, AgentState, apply_outcome, watch_state, host_state,
  update_host, update_watch, push_run,
}
use deptui.State.History.{watch_state-update, host_state-update}
use deptui.Daemon.{Daemon}
use deptui.Daemon.Finish.{fold_outcomes, settle_run}

abbrev pub is_host : String → HostRun → Bool
is_host name hr = hr.host == name

-- No host is there twice.
abbrev pub OneEach : List HostRun → Type 0
OneEach [] = Unit {0}
OneEach (hr ∷ rest) = (find_by (is_host hr.host) rest ≡ none) × OneEach rest

-- A host's state after the run's entry for it, if it has one.
abbrev pub after_entry : Option HostRun → HostState → String → ℕ → HostState
after_entry none hs rev time = hs
after_entry (some hr) hs rev time = apply_outcome hs hr rev time

fold_step :
    (rev name : String) (time : ℕ) (hr : HostRun) (rest : List HostRun) (ws : WatchState) (b : Bool)
    → (hr.host == name) ≡ b
    → find_by (is_host hr.host) rest ≡ none
    → after_entry
        (find_by (is_host name) rest)
        (host_state (update_host hr.host (λ hs. apply_outcome hs hr rev time) ws) name)
        rev
        time
      ≡ after_entry
          (if b then some hr else find_by (is_host name) rest)
          (host_state ws name)
          rev
          time
fold_step rev name time hr rest ws true e o =
    rw (host_state-update, e, sym ((eq_iff hr.host name).0 e), o) refl
fold_step rev name time hr rest ws false e o = rw (host_state-update, e) refl

found_first :
    (name : String) (hr : HostRun) (rest : List HostRun)
    → (if hr.host == name then some hr else find_by (is_host name) rest)
      ≡ find_by (is_host name) (hr ∷ rest)
found_first name hr rest = elim (Bool-cases (hr.host == name)) [
  | inl e ↦ ground (arith, e)
  | inr e ↦ ground (arith, e)
]

fold_outcomes-after_entry :
    (rev name : String) (time : ℕ) (runs : List HostRun) (ws : WatchState)
    → OneEach runs
    → host_state (fold_outcomes rev time runs ws) name
      ≡ after_entry (find_by (is_host name) runs) (host_state ws name) rev time
unfolding fold_outcomes
fold_outcomes-after_entry rev name time [] ws o = refl
fold_outcomes-after_entry rev name time (hr ∷ rest) ws o =
    fold_outcomes-after_entry rev name time rest
      (update_host hr.host (λ hs. apply_outcome hs hr rev time) ws) o.1
    ∙ fold_step rev name time hr rest ws (hr.host == name) refl o.0
    ∙ ap (λ e. after_entry e (host_state ws name) rev time) (found_first name hr rest)

pushed_hosts :
    (watch other : String) (run : RunRecord) (st : AgentState)
    → (watch_state (push_run watch run st) other).hosts ≡ (watch_state st other).hosts
unfolding push_run
pushed_hosts watch other run st = rw (watch_state-update) (ground (arith, eq_iff watch other))

-- What `finish_run` does to the hosts before the queue is drained.
pub settle_run-after_entry :
    (watch other name : String) (run : RunRecord) (time : ℕ) (d : Daemon)
    → OneEach run.hosts
    → host_state (watch_state (settle_run watch run time d).state other) name ≡ (
        if watch == other
        then after_entry
            (find_by (is_host name) run.hosts)
            (host_state (watch_state d.state watch) name)
            run.rev
            time
        else host_state (watch_state d.state other) name)
unfolding settle_run
settle_run-after_entry watch other name run time d o =
    ap (λ hosts. host_state (record (watch_state d.state other) { hosts = hosts }) name)
      (pushed_hosts watch other run
        (update_watch watch (fold_outcomes run.rev time run.hosts) d.state))
    ∙ rw (watch_state-update) (elim (Bool-cases (watch == other)) [
      | inl same ↦
          rw (same)
            (fold_outcomes-after_entry run.rev name time run.hosts (watch_state d.state watch) o)
      | inr differs ↦ rw (differs) refl
    ])

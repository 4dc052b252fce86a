-- ===== src/Daemon/Due.antt =====
-- crates/deptui-agent/src/daemon.rs: what the timers do: `poll_due` and `recheck_due`.
use deptui.Prelude.{
  ℕ, String, Bool, true, false, Option, none, some, List, [], ◌∷◌, leb, if◌then◌else◌, unwrap_or,
  map_option,
}
use deptui.Prelude.Map.{Map, get, insert, remove}
use deptui.Prelude.Result.{Result, ok, err}
use deptui.Ssh.{SshOverride, no_override}
use deptui.Config.{WatchConfig, ssh_override}
use deptui.State.{watch_state, OfflineStamp, HostState, WatchState, update_watch}
use deptui.Runner.{Unreachable, check_reachable}
use deptui.Daemon.{
  Clocks, Task, return, act, here, modify, now, save_state, watch_cfg, reschedule, schedule_recheck,
  ◌>>=◌, ◌>>◌,
}
use deptui.Daemon.Poll.{request_poll}
use deptui.Effects.{Env}

-- The names whose time has come, in order.
unfoldable pub due_names : ℕ → Map ℕ → List String
due_names t [] = []
due_names t ((name, at) ∷ rest) =
    let more = due_names t rest in if leb at t then name ∷ more else more

-- The hosts with a pending update, with their stamps.
unfoldable pub pending_hosts : Map HostState → List (String × OfflineStamp)
pending_hosts [] = []
pending_hosts ((host, hs) ∷ rest) =
    let more = pending_hosts rest in elim hs.offline [ none ↦ more | some o ↦ (host, o) ∷ more ]

unfoldable pub override_of : Option WatchConfig → String → SshOverride
unfolding get ssh_override
override_of none host = no_override
override_of (some w) host = unwrap_or (map_option ssh_override (get host w.hosts)) no_override

-- A host that answers sheds its marker and ssh's last words; another keeps the freshest reason.
unfoldable pub hear : Option Unreachable → HostState → HostState
hear none hs = record hs { offline = none; unreachable = none }
hear (some u) hs = record hs {
  offline = map_option (λ (o : OfflineStamp). record o { kind = u.kind }) hs.offline;
  unreachable = some u.message;
}

-- `hosts.get_mut(host)`: a missing host stays missing.
unfoldable pub hear_at : String → Option Unreachable → WatchState → WatchState
unfolding hear get insert
hear_at host verdict ws = elim (get host ws.hosts) [
  | none ↦ ws
  | some hs ↦ record ws { hosts = insert host (hear verdict hs) ws.hosts }
]

unfoldable pub hear_all : List (String × Option Unreachable) → WatchState → WatchState
unfolding hear_at
hear_all [] ws = ws
hear_all ((host, verdict) ∷ rest) ws = hear_all rest (hear_at host verdict ws)

unfoldable pub any_back : List (String × Option Unreachable) → Bool
any_back [] = false
any_back ((host, none) ∷ rest) = true
any_back ((host, some u) ∷ rest) = any_back rest

unfoldable pub any_down : List (String × Option Unreachable) → Bool
any_down [] = false
any_down ((host, none) ∷ rest) = any_down rest
any_down ((host, some u) ∷ rest) = true

-- `check_reachable` does not fail: an error would be read as an answer.
abbrev pub verdict_of : Result (Option Unreachable) → Option Unreachable
verdict_of (ok v) = v
verdict_of (err e) = none

module _ (env : Env) (clocks : Clocks) where
  unfoldable pub probe_hosts :
      Option WatchConfig → List (String × OfflineStamp) → Task (List (String × Option Unreachable))
  unfolding override_of act return ◌>>=◌
  probe_hosts w [] = return []
  probe_hosts w ((host, stamp) ∷ rest) = do
    r ← act (check_reachable env stamp.target (override_of w host))
    more ← probe_hosts w rest
    return ((host, verdict_of r) ∷ more)

  unfoldable pub catch_up_poll : String → Bool → Task (Unit {0})
  unfolding save_state return ◌>>=◌
  catch_up_poll watch false = return tt
  catch_up_poll watch true = do save_state; request_poll env watch "catch-up"

  unfoldable pub rearm : String → Bool → Task (Unit {0})
  unfolding save_state return ◌>>=◌
  rearm watch false = return tt
  rearm watch true = do save_state; schedule_recheck clocks watch

  unfoldable pub recheck_hosts : String → List (String × OfflineStamp) → Task (Unit {0})
  unfolding probe_hosts hear_all any_back any_down update_watch catch_up_poll rearm here modify
      return ◌>>=◌
  recheck_hosts watch [] = return tt
  recheck_hosts watch (p ∷ pending) = do
    d ← here
    verdicts ← probe_hosts (watch_cfg d watch) (p ∷ pending)
    modify λ d. record d { state = update_watch watch (hear_all verdicts) d.state }
    catch_up_poll watch (any_back verdicts)
    rearm watch (any_down verdicts)

  unfoldable pub recheck : String → Task (Unit {0})
  unfolding recheck_hosts pending_hosts remove here modify ◌>>=◌
  recheck watch = do
    modify λ d. record d { recheck_at = remove watch d.recheck_at }
    d ← here
    recheck_hosts watch (pending_hosts (watch_state d.state watch).hosts)

  unfoldable pub recheck_all : List String → Task (Unit {0})
  unfolding recheck return ◌>>=◌
  recheck_all [] = return tt
  recheck_all (w ∷ rest) = do recheck w; recheck_all rest

  unfoldable pub recheck_due : Task (Unit {0})
  unfolding recheck_all due_names here now ◌>>=◌
  recheck_due = do t ← now clocks.instant; d ← here; recheck_all (due_names t d.recheck_at)

  unfoldable pub poll_all : List String → Task (Unit {0})
  unfolding return ◌>>=◌
  poll_all [] = return tt
  poll_all (w ∷ rest) = do reschedule clocks w; request_poll env w "poll"; poll_all rest

  unfoldable pub poll_due : Task (Unit {0})
  unfolding poll_all due_names here now ◌>>=◌
  poll_due = do t ← now clocks.instant; d ← here; poll_all (due_names t d.next_poll)

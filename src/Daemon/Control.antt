-- ===== src/Daemon/Control.antt =====
-- crates/deptui-agent/src/daemon.rs: the commands of a human: `kick`, `set_paused`, `approve` and
-- `CancelRun`.
use deptui.Prelude.{
  String, Bool, true, false, ◌&&◌, not, Option, none, some, List, [], ◌∷◌, ◌==◌, if◌then◌else◌,
  is_some, is_none, any_by, filter_by, map,
}
use deptui.Prelude.Text.{concat, join, short_rev, decimal}
use deptui.Prelude.Map.{contains_key, get}
use deptui.Prelude.Result.{Result, ok, err}
use deptui.Config.{AgentConfig}
use deptui.State.{watch_state, host_state, AgentState, update_watch, update_host}
use deptui.Daemon.{
  Scope, global, one_watch, one_host, RunningRun, Daemon, Task, return, here, modify, save_state,
  watch_cfg, ◌>>=◌, ◌>>◌,
}
use deptui.Daemon.Poll.{request_poll}
use deptui.Effects.{Env}

-- The names of the watches that configure a host.
unfoldable pub owners : AgentConfig → String → List String
unfolding get
owners cfg host = map (λ w. w.name) (filter_by (λ w. contains_key host w.hosts) cfg.watches)

verb : Bool → String
verb paused = if paused then "paused" else "resumed"

running_note : Daemon → Bool → String
running_note d paused =
    if paused && is_some d.running
    then " (a run is in flight and will finish — use `cancel` to stop it)"
    else ""

unfoldable pub host_paused_text : Daemon → String → Bool → List String → String
unfolding verb running_note
host_paused_text d h paused names =
    concat
      ("host `" ∷ h ∷ "` " ∷ verb paused ∷ " in " ∷ join ", " names ∷ running_note d paused ∷ [])

-- The host's flag in each of the watches.
unfoldable pub pause_in : String → Bool → List String → AgentState → AgentState
unfolding update_watch update_host
pause_in host paused [] st = st
pause_in host paused (w ∷ rest) st =
    pause_in host paused rest
      (update_watch w (update_host host λ hs. record hs { paused = paused }) st)

-- The new state and the reply, or an error that changes nothing.
unfoldable pub pause : Daemon → Scope → Bool → Result (AgentState × String)
unfolding verb running_note host_paused_text owners pause_in update_watch watch_cfg
pause d global paused = ok (
  record d.state { paused = paused },
  concat ("agent " ∷ verb paused ∷ running_note d paused ∷ []),
)
pause d (one_watch w) paused =
    if is_none (watch_cfg d w)
    then err (concat ("unknown watch `" ∷ w ∷ "`" ∷ []))
    else ok (
      update_watch w (λ ws. record ws { paused = paused }) d.state,
      concat ("watch `" ∷ w ∷ "` " ∷ verb paused ∷ running_note d paused ∷ []),
    )
pause d (one_host h) paused = elim (owners d.cfg h) [
  | [] ↦ err (concat ("no watch configures host `" ∷ h ∷ "`" ∷ []))
  | w ∷ ws ↦ ok (pause_in h paused (w ∷ ws) d.state, host_paused_text d h paused (w ∷ ws))
]

-- Write a new state, or leave everything as it is.
unfoldable pub commit : Result (AgentState × String) → Task (Result String)
unfolding modify save_state return ◌>>=◌
commit (err e) = return (err e)
commit (ok (state, text)) = do modify λ d. record d { state = state }; save_state; return (ok text)

unfoldable pub set_paused : Scope → Bool → Task (Result String)
unfolding pause commit here ◌>>=◌
set_paused scope paused = do d ← here; commit (pause d scope paused)

-- The watch that an approval is for.
unfoldable pub approval_watch : AgentConfig → Option String → String → Result String
unfolding owners
approval_watch cfg (some w) host = ok w
approval_watch cfg none host = elim (owners cfg host) [
  | [] ↦ err (concat ("no watch configures host `" ∷ host ∷ "`" ∷ []))
  | w ∷ more ↦ elim more [
    | [] ↦ ok w
    | other ∷ rest ↦
        err (concat ("host `" ∷ host ∷ "` appears in multiple watches — pass --watch" ∷ []))
  ]
]

unfoldable pub configures : AgentConfig → String → String → Bool
unfolding get
configures cfg watch host = any_by (λ w. w.name == watch && contains_key host w.hosts) cfg.watches

-- The flag's new value and the reply.
unfoldable pub approval : String → Bool → Bool → Result (Bool × String)
approval host revoke approved =
    if revoke
    then (if not approved
        then err (concat ("`" ∷ host ∷ "` has no pending approval" ∷ []))
        else ok (false, concat ("approval revoked — `" ∷ host ∷ "` holds again" ∷ [])))
    else if approved
    then ok (true, concat ("`" ∷ host ∷ "` is already approved for the next update round" ∷ []))
    else ok (
      true,
      concat (
          "approved: `" ∷ host
          ∷ "` takes the next update round — this will move it off any generation made outside the watched repo (revoke with --revoke)"
          ∷ []),
    )

-- `entry(host).or_default()` makes the entry before the flag is looked at.
unfoldable pub ensure_host : String → String → AgentState → AgentState
unfolding update_watch update_host
ensure_host watch host st = update_watch watch (update_host host λ hs. hs) st

unfoldable pub set_approved : String → String → Bool → AgentState → AgentState
unfolding update_watch update_host
set_approved watch host value st =
    update_watch watch (update_host host λ hs. record hs { approved = value }) st

unfoldable pub approve_in : String → String → Bool → Task (Result String)
unfolding approval ensure_host set_approved modify save_state here return ◌>>=◌
approve_in watch host revoke = do
  modify λ d. record d { state = ensure_host watch host d.state }
  d ← here
  elim (approval host revoke (host_state (watch_state d.state watch) host).approved) [
    | err e ↦ return (err e)
    | ok result ↦
        (modify (λ d. record d { state = set_approved watch host result.0 d.state }) >>= λ u.
        save_state >>= λ v. return (ok result.1))
  ]

unfoldable pub approve : Option String → String → Bool → Task (Result String)
unfolding approval_watch configures approve_in here return ◌>>=◌
approve watch host revoke = do
  d ← here
  elim (approval_watch d.cfg watch host) [
    | err e ↦ return (err e)
    | ok w ↦
        if not (configures d.cfg w host)
        then return
            (err (concat ("host `" ∷ host ∷ "` is not configured in watch `" ∷ w ∷ "`" ∷ [])))
        else approve_in w host revoke
  ]

unfoldable pub cancel_text : RunningRun → String
cancel_text r = concat (
    "cancelling run #"
    ∷ decimal r.run_id
    ∷ " of watch `"
    ∷ r.watch
    ∷ "` — hosts it would have deployed stay parked at "
    ∷ short_rev r.rev
    ∷ " until a new revision, a kick after one, or a force-deploy"
    ∷ [])

unfoldable pub cancel_at : Option RunningRun → Task (Result String)
unfolding cancel_text modify return ◌>>=◌
cancel_at none = return (err "no run in progress")
cancel_at (some r) =
    modify (λ d. record d { running = some (record r { cancel_sent = true }) }) >>= λ u.
    return (ok (cancel_text r))

unfoldable pub cancel_run : Task (Result String)
unfolding cancel_at here ◌>>=◌
cancel_run = do d ← here; cancel_at d.running

unfoldable pub kick_names : Daemon → Option String → Result (List String)
unfolding watch_cfg
kick_names d none = ok (map (λ w. w.name) d.cfg.watches)
kick_names d (some w) =
    if is_none (watch_cfg d w) then err (concat ("unknown watch `" ∷ w ∷ "`" ∷ [])) else ok (w ∷ [])

module _ (env : Env) where
  unfoldable pub kick_all : List String → Task (Unit {0})
  unfolding return ◌>>=◌
  kick_all [] = return tt
  kick_all (name ∷ rest) = do request_poll env name "kick"; kick_all rest

  unfoldable pub kick : Option String → Task (Result String)
  unfolding kick_names kick_all here return ◌>>=◌
  kick watch = do
    d ← here
    elim (kick_names d watch) [
      | err e ↦ return (err e)
      | ok names ↦
          (kick_all names >>= λ u. return (ok (concat ("kicked: " ∷ join ", " names ∷ []))))
    ]

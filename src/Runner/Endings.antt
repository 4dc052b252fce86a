-- ===== src/Runner/Endings.antt =====
-- crates/deptui-agent/src/runner.rs: the notifications never fail, and what `settle` records of a host is
-- told by the outcome of its round.
use deptui.Prelude.{String, ◌≡◌, refl, Option, none, some, [], if◌then◌else◌}
use deptui.Prelude.Map.{Map}
use deptui.Prelude.Result.{Result, ok, err}
use deptui.Config.{NotifyConfig, WatchConfig, webhook_kind, wants_event}
use deptui.Notify.{Event}
use deptui.Notify.Dispatch.{new_event, hook_for, read_token, post_to, webhook_for, dispatch}
use deptui.State.{HostRun}
use deptui.State.Outcome.{Outcome, outcome_name}
use deptui.Wire.{OfflineKind, down, denied, stalled}
use deptui.Runner.{DeployOutcome, deployed, offline, cancelled, adopted, held, say}
use deptui.Runner.Execute.{notify_host, pending_notice, settle}
use deptui.Effects.{Env, pure, tell, hooked, posted}
use deptui.Effects.Ends.{Ends, Any, Ends-pure, Ends-done, Ends-tell, Ends-if, Ends-then, ends_rules}

pub Ends-say : (text : String) → Ends Any (say text)
unfolding say
Ends-say text = record { at = λ s. tt }

-- The outcome that a host's round is recorded as.
abbrev pub outcome_of : Result DeployOutcome → Outcome
outcome_of (ok (deployed t)) = Outcome.succeeded
outcome_of (ok (adopted t)) = Outcome.adopted
outcome_of (ok (held m)) = Outcome.held
outcome_of (ok cancelled) = Outcome.cancelled
outcome_of (ok (offline t m k)) = Outcome.pending k
outcome_of (err e) = Outcome.failed

-- The paths that are recorded with it: what was deployed or adopted.
abbrev pub paths_of : Result DeployOutcome → Map String
paths_of (ok (deployed t)) = t
paths_of (ok (adopted t)) = t
paths_of _ = []

pub record Settled (host : String) (r : Result DeployOutcome) (run : HostRun) : Type 0 where
  pub names : run.host ≡ host
  pub outcome : run.outcome ≡ outcome_name (outcome_of r)
  pub paths : run.toplevels ≡ paths_of r

module _ (env : Env) where
  Ends-new_event :
      (kind watch : String) (host : Option String) (rev message : String)
      → Ends Any (new_event env kind watch host rev message)
  unfolding new_event
  Ends-new_event kind watch host rev message = search ends_rules

  Ends-hook_for : (cfg : NotifyConfig) (event : Event) → Ends Any (hook_for env cfg event)
  unfolding hook_for
  Ends-hook_for cfg event =
      elim cfg.on_failure
        as (λ o. Ends Any (elim o [ none ↦ pure tt | some cmd ↦ tell (hooked cmd event) ])) [
          | none ↦ Ends-done tt
          | some cmd ↦ Ends-tell (hooked cmd event)
        ]

  Ends-read_token : (o : Option String) → Ends Any (read_token env o)
  unfolding read_token
  Ends-read_token none = search ends_rules
  Ends-read_token (some path) = search ends_rules

  Ends-post_to :
      (cfg : NotifyConfig) (event : Event) (url : String) → Ends Any (post_to env cfg event url)
  unfolding post_to
  Ends-post_to cfg event url =
      Ends-then Any (read_token env cfg.token_file)
        (λ token. tell (posted url (webhook_kind cfg) token event)) (Ends-read_token cfg.token_file)
        (λ token. Ends-tell (posted url (webhook_kind cfg) token event))

  Ends-webhook_for : (cfg : NotifyConfig) (event : Event) → Ends Any (webhook_for env cfg event)
  unfolding webhook_for
  Ends-webhook_for cfg event =
      elim cfg.url
        as (λ o. Ends Any (elim o [
          | none ↦ pure tt
          | some url ↦ if wants_event cfg event.kind then post_to env cfg event url else pure tt
        ])) [
          | none ↦ Ends-done tt
          | some url ↦
              Ends-if Any (wants_event cfg event.kind) _ _ (Ends-post_to cfg event url)
                (Ends-done tt)
        ]

  Ends-dispatch : (cfg : NotifyConfig) (event : Event) → Ends Any (dispatch env cfg event)
  unfolding dispatch
  Ends-dispatch cfg event = search (ends_rules, Ends-hook_for, Ends-webhook_for)

  module _ (watch : WatchConfig) (notify : NotifyConfig) (rev : String) where
    pub Ends-notify_host :
        (kind host message : String) → Ends Any (notify_host env watch notify rev kind host message)
    unfolding notify_host
    Ends-notify_host kind host message = search (ends_rules, Ends-new_event, Ends-dispatch)

    Ends-pending_notice :
        (host target message : String) (k : OfflineKind)
        → Ends Any (pending_notice env watch notify rev host target message k)
    unfolding pending_notice
    Ends-pending_notice host target message down = Ends-done tt
    Ends-pending_notice host target message denied = Ends-notify_host _ _ _
    Ends-pending_notice host target message stalled = Ends-notify_host _ _ _

    pub Ends-settle :
        (host : String) (r : Result DeployOutcome)
        → Ends (Settled host r) (settle env watch notify rev host r)
    unfolding settle outcome_name
    Ends-settle host (ok (adopted t)) =
        Ends-then _ (say _) _ (Ends-say _)
          λ u. Ends-pure _ _ (record { names = refl; outcome = refl; paths = refl })
    Ends-settle host (ok (held m)) = Ends-then _ (say _) _ (Ends-say _) λ u.
        Ends-then _ (notify_host env watch notify rev _ _ _) _ (Ends-notify_host _ _ _)
          λ v. Ends-pure _ _ (record { names = refl; outcome = refl; paths = refl })
    Ends-settle host (ok cancelled) =
        Ends-then _ (say _) _ (Ends-say _)
          λ u. Ends-pure _ _ (record { names = refl; outcome = refl; paths = refl })
    Ends-settle host (ok (offline t m k)) = Ends-then _ (say _) _ (Ends-say _) λ u.
        Ends-then _ (pending_notice env watch notify rev _ _ _ _) _ (Ends-pending_notice _ _ _ _)
          λ v. Ends-pure _ _ (record { names = refl; outcome = refl; paths = refl })
    Ends-settle host (ok (deployed t)) = Ends-then _ (say _) _ (Ends-say _) λ u.
        Ends-then _ (notify_host env watch notify rev _ _ _) _ (Ends-notify_host _ _ _)
          λ v. Ends-pure _ _ (record { names = refl; outcome = refl; paths = refl })
    Ends-settle host (err e) = Ends-then _ (say _) _ (Ends-say _) λ u.
        Ends-then _ (notify_host env watch notify rev _ _ _) _ (Ends-notify_host _ _ _)
          λ v. Ends-pure _ _ (record { names = refl; outcome = refl; paths = refl })

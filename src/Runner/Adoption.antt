-- ===== src/Runner/Adoption.antt =====
-- crates/deptui-agent/src/runner.rs: a first encounter starts no deploy, and a host that is neither adopted
-- nor guarded, as an approved one, is not held.
use deptui.Prelude.{
  String, ◌≡◌, refl, Bool, true, false, ◌&&◌, Option, none, some, List, [], ◌==◌, arith,
  if◌then◌else◌, find_by, and_then,
}
use deptui.Prelude.Map.{get}
use deptui.Prelude.Result.{Result, ok, err, ok_or}
use deptui.Config.{
  NotifyConfig, HostConfig, WatchConfig, catch_up, ssh_override, bootstrap_deploys, drift_guard,
}
use deptui.Flake.{Node}
use deptui.State.{HostState}
use deptui.Remote.{build_ssh_target}
use deptui.Runner.{
  PlanHost, DeployOutcome, deployed, offline, cancelled, adopted, held, Unreachable,
  check_reachable, is_self_target, say,
}
use deptui.Runner.Push.{probe_first, reached, guarded_push, push, deploy_host, managed_profiles}
use deptui.Runner.Quiet.{Quiet-first_encounter, Quiet-say}
use deptui.Runner.Sparing.{spared, Unsparing-push}
use deptui.Runner.Hosts.{Quiet-probe_first}
use deptui.Daemon.Plan.{plan_host}
use deptui.Effects.{Env, Machine, Act, pure, lift, ◌>>=◌}
use deptui.Effects.Quiet.{
  started, Quiet, Quiet-pure, Quiet-lift, Quiet-bind, Quiet-if, Post, Post-bind,
}

approved_plan :
    (name : String) (hs : HostState) (ph : PlanHost) (rev : String)
    → hs.approved ≡ true
    → plan_host name hs rev ≡ some ph
    → (ph.adopt ≡ false) × (ph.recorded_toplevels ≡ [])
unfolding plan_host
approved_plan name hs ph rev h hp = (ground arith, ground arith)

-- The endings at which a host keeps what it runs because of the agent's own guards.
abbrev pub stands_off : Result DeployOutcome → Bool
stands_off (ok (held m)) = true
stands_off (ok (adopted t)) = true
stands_off _ = false

abbrev Forward : Result DeployOutcome → Type 0
Forward r = stands_off r ≡ false

spared_of_stands_off : (r : Result DeployOutcome) → spared r ≡ false → stands_off r ≡ false
spared_of_stands_off (ok (held m)) h = h
spared_of_stands_off (ok (adopted t)) h = h
spared_of_stands_off (ok (deployed t)) h = refl
spared_of_stands_off (ok (offline t m k)) h = refl
spared_of_stands_off (ok cancelled) h = refl
spared_of_stands_off (err e) h = refl

module _ (env : Env) (watch : WatchConfig) (flake : String) (notify : NotifyConfig) where
  Quiet-reached :
      (rev : String) (ph : PlanHost) (hc : HostConfig) (node : Node)
      → ph.adopt ≡ true
      → bootstrap_deploys hc ≡ false
      → Quiet (reached env watch flake notify rev ph hc node)
  unfolding reached
  Quiet-reached rev ph hc node ha hb =
      Quiet-bind (if is_self_target env.hostname node.hostname then say _ else pure tt) _
        (Quiet-if (is_self_target env.hostname node.hostname) _ _ (Quiet-say _) (Quiet-pure tt))
        λ u.
          rw (ha, hb)
            (Quiet-first_encounter env flake node (ssh_override hc) (managed_profiles hc node)
              (managed_profiles hc node) [])

  Quiet-missed :
      (rev : String) (ph : PlanHost) (hc : HostConfig) (node : Node) (miss : Option DeployOutcome)
      → ph.adopt ≡ true
      → bootstrap_deploys hc ≡ false
      → Quiet (elim miss [
        | some outcome ↦ pure outcome
        | none ↦ reached env watch flake notify rev ph hc node
      ])
  Quiet-missed rev ph hc node none ha hb = Quiet-reached rev ph hc node ha hb
  Quiet-missed rev ph hc node (some outcome) ha hb = Quiet-pure outcome

  Quiet-deploy_host :
      (nodes : List Node) (ph : PlanHost) (rev : String) (hc : HostConfig)
      → get ph.name watch.hosts ≡ some hc
      → ph.adopt ≡ true
      → bootstrap_deploys hc ≡ false
      → Quiet (deploy_host env watch flake nodes ph rev notify)
  unfolding deploy_host
  Quiet-deploy_host nodes ph rev hc h ha hb = rw (h) (
      Quiet-bind (lift (ok_or (find_by (λ n. n.name == ph.name) nodes) _)) _ (Quiet-lift _) λ node.
        Quiet-bind (probe_first env watch flake hc node) _
          (Quiet-probe_first env watch flake hc node)
          λ miss. Quiet-missed rev ph hc node miss ha hb)

  -- On a first encounter with a configured host no deploy is started, whatever the probe finds,
  -- unless the host's configuration asks for bootstrap deploys.
  pub deploy_host-first_encounter :
      (nodes : List Node) (ph : PlanHost) (rev : String) (hc : HostConfig) (s : Machine)
      → get ph.name watch.hosts ≡ some hc
      → ph.adopt ≡ true
      → bootstrap_deploys hc ≡ false
      → started (deploy_host env watch flake nodes ph rev notify s).1.calls ≡ started s.calls
  deploy_host-first_encounter nodes ph rev hc s h ha hb =
      (Quiet-deploy_host nodes ph rev hc h ha hb).at s

  Forward-push :
      (rev host : String) (hc : HostConfig) (node : Node)
      → Post Forward (push env watch flake notify rev host hc node)
  Forward-push rev host hc node = record {
    at = λ s.
        spared_of_stands_off (push env watch flake notify rev host hc node s).0
          ((Unsparing-push env watch flake notify rev host hc node).at s);
  }

  Forward-bind :
      {A : Type 0}
      → (m : Act A) (f : A → Act DeployOutcome) → ((a : A) → Post Forward (f a))
      → Post Forward (m >>= f)
  Forward-bind m f h = Post-bind Forward m f (λ e. refl) h

  unguarded :
      (b : Bool) (m n : Act DeployOutcome)
      → Post Forward n
      → Post Forward (if b && false then m else n)
  unguarded true m n h = h
  unguarded false m n h = h

  Forward-reached :
      (rev : String) (ph : PlanHost) (hc : HostConfig) (node : Node)
      → ph.adopt ≡ false
      → ph.recorded_toplevels ≡ []
      → Post Forward (reached env watch flake notify rev ph hc node)
  unfolding reached guarded_push
  Forward-reached rev ph hc node ha hr =
      Forward-bind (if is_self_target env.hostname node.hostname then say _ else pure tt) _
        λ u. rw (ha, hr) (unguarded (drift_guard hc) _ _ (Forward-push rev ph.name hc node))

  Forward-probe :
      (rev : String) (ph : PlanHost) (hc : HostConfig) (node : Node) (next : Act DeployOutcome)
      (target : String) (o : Option Unreachable)
      → Post Forward next
      → Post Forward (elim (and_then o λ u. some (offline target u.message u.kind)) [
        | some outcome ↦ pure outcome
        | none ↦ next
      ])
  unfolding pure
  Forward-probe rev ph hc node next target none h = h
  Forward-probe rev ph hc node next target (some u) h = record { at = λ s. refl }

  module _ {A B : Type 0} (g : A → B) (f : B → Act DeployOutcome) where
    Forward-rest :
        (r : Result A) (s : Machine)
        → ((a : A) → Post Forward (f (g a)))
        → Forward (((lift r >>= λ a. pure (g a)) >>= f) s).0
    unfolding pure ◌>>=◌
    Forward-rest (ok a) s h = (h a).at s
    Forward-rest (err e) s h = refl

    Forward-map :
        (m : Act A)
        → ((a : A) → Post Forward (f (g a)))
        → Post Forward ((m >>= λ a. pure (g a)) >>= f)
    unfolding pure ◌>>=◌
    Forward-map m h = record { at = λ s. Forward-rest (m s).0 (m s).1 h }

  Forward-probed :
      (rev : String) (ph : PlanHost) (hc : HostConfig) (node : Node) (b : Bool)
      (next : Act DeployOutcome)
      → Post Forward next
      → Post Forward (
          (if b
            then (check_reachable env
                  (build_ssh_target node "system" (ssh_override hc))
                  (ssh_override hc)
                >>= λ miss. pure (
                    and_then miss λ u. some (
                      offline (build_ssh_target node "system" (ssh_override hc)) u.message u.kind)))
            else pure none)
          >>= λ miss. elim miss [ some outcome ↦ pure outcome | none ↦ next ])
  unfolding pure ◌>>=◌
  Forward-probed rev ph hc node false next h = h
  Forward-probed rev ph hc node true next h =
      Forward-map _ _ (check_reachable env _ (ssh_override hc))
        λ miss. Forward-probe rev ph hc node next _ miss h

  Forward-deploy_host :
      (nodes : List Node) (ph : PlanHost) (rev : String)
      → ph.adopt ≡ false
      → ph.recorded_toplevels ≡ []
      → Post Forward (deploy_host env watch flake nodes ph rev notify)
  unfolding deploy_host probe_first
  Forward-deploy_host nodes ph rev ha hr =
      Forward-bind (lift (ok_or (get ph.name watch.hosts) _)) _ λ hc.
        Forward-bind (lift (ok_or (find_by (λ n. n.name == ph.name) nodes) _)) _ λ node.
          Forward-probed rev ph hc node (catch_up hc) _ (Forward-reached rev ph hc node ha hr)

  -- A host that is approved when its round is planned does not come out of that round held or
  -- adopted.
  pub deploy_host-approved :
      (nodes : List Node) (name : String) (hs : HostState) (ph : PlanHost) (rev : String)
      (s : Machine)
      → hs.approved ≡ true
      → plan_host name hs rev ≡ some ph
      → stands_off (deploy_host env watch flake nodes ph rev notify s).0 ≡ false
  deploy_host-approved nodes name hs ph rev s h hp =
      (Forward-deploy_host nodes ph rev (approved_plan name hs ph rev h hp).0
          (approved_plan name hs ph rev h hp).1).at
        s

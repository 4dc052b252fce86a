-- ===== src/Daemon/Cycle.antt =====
-- crates/deptui-agent/src/daemon.rs, runner.rs and state.rs together: a host's way from the plan of a round
-- through its deploy and its record back to the plan of the next round.
use deptui.Prelude.{ℕ, String, ◌≡◌, ◌≢◌, refl, sym, ◌∙◌, Bool, true, false, none, some, List}
use deptui.Prelude.Result.{Result, ok, err}
use deptui.Config.{NotifyConfig, WatchConfig}
use deptui.Flake.{Node}
use deptui.State.{HostRun, HostState, apply_outcome}
use deptui.State.Outcome.{Outcome, is_pending, outcome_name}
use deptui.Runner.{PlanHost, DeployOutcome, deployed, offline, cancelled, adopted, held}
use deptui.Runner.Push.{deploy_host}
use deptui.Runner.Execute.{settle}
use deptui.Runner.Endings.{Settled, outcome_of, Ends-settle}
use deptui.Runner.Adoption.{stands_off, deploy_host-approved}
use deptui.Daemon.Plan.{plan_host}
use deptui.Daemon.Rounds.{plan_host-settled, plan_host-pending}
use deptui.Effects.{Env, Machine}
use deptui.Effects.Ends.{Ended}

Ended-map :
    {A : Type 0} → (P Q : A → Type 0) (r : Result A) → ((a : A) → P a → Q a) → Ended P r → Ended Q r
Ended-map P Q (ok a) f h = f a h
Ended-map P Q (err e) f h = absurd h

held_stands_off : (r : Result DeployOutcome) → outcome_of r ≡ Outcome.held → stands_off r ≡ true
held_stands_off (ok (held m)) e = refl
held_stands_off (ok (adopted t)) e = refl
held_stands_off (ok (deployed t)) e = cc
held_stands_off (ok (offline t m k)) e = cc
held_stands_off (ok cancelled) e = cc
held_stands_off (err x) e = cc

true_not_false : true ≢ false
true_not_false e = cc

not_approved : (b c : Bool) → (b ≡ true → c ≡ false) → c ≡ true → b ≡ false
not_approved true c f h = absurd (true_not_false (sym h ∙ f refl))
not_approved false c f h = refl

-- Was the update left pending?
abbrev pub left_pending : Result DeployOutcome → Bool
left_pending r = is_pending (outcome_of r)

again :
    (name rev : String) (hs : HostState) (ph : PlanHost) (time : ℕ) (o : Outcome) (run : HostRun)
    → plan_host name hs rev ≡ some ph
    → is_pending o ≡ true
    → run.outcome ≡ outcome_name o
    → plan_host name (apply_outcome hs run rev time) rev ≡ some ph
again name rev hs ph time (Outcome.pending k) run hp hl e =
    plan_host-pending name k hs run rev time ph e hp
again name rev hs ph time Outcome.succeeded run hp hl e = cc
again name rev hs ph time Outcome.adopted run hp hl e = cc
again name rev hs ph time Outcome.held run hp hl e = cc
again name rev hs ph time Outcome.failed run hp hl e = cc
again name rev hs ph time Outcome.cancelled run hp hl e = cc

module _ (env : Env) (watch : WatchConfig) (flake : String) (notify : NotifyConfig)
    (nodes : List Node) where
  -- When a planned host's round is over, was not left pending, and its outcome is recorded on
  -- whatever state the host then has, the state so recorded gives no plan for the host at that
  -- revision, whether it was deployed, adopted, held, failed or cancelled; the state on which the
  -- outcome is recorded may be approved only if the host was approved when it was planned.
  pub round-not_again :
      (name rev : String) (hs later : HostState) (ph : PlanHost) (time : ℕ) (s t : Machine)
      → plan_host name hs rev ≡ some ph
      → (later.approved ≡ true → hs.approved ≡ true)
      → left_pending (deploy_host env watch flake nodes ph rev notify s).0 ≡ false
      → Ended
          (λ run. plan_host name (apply_outcome later run rev time) rev ≡ none)
          (settle env watch notify rev name
            (deploy_host env watch flake nodes ph rev notify s).0
            t).0
  round-not_again name rev hs later ph time s t hp ha hl =
      let r = (deploy_host env watch flake nodes ph rev notify s).0 in
      Ended-map (Settled name r) _ (settle env watch notify rev name r t).0
        (λ run h. plan_host-settled name (outcome_of r) later run rev time h.outcome hl λ e.
          not_approved later.approved (stands_off r)
            (λ a. deploy_host-approved env watch flake notify nodes name hs ph rev s (ha a) hp)
            (held_stands_off r e))
        ((Ends-settle env watch notify rev name r).at t)

  -- When a planned host's round leaves the update pending, the host is planned again at that
  -- revision, with the same plan as before.
  pub round-pending :
      (name rev : String) (hs : HostState) (ph : PlanHost) (time : ℕ) (s t : Machine)
      → plan_host name hs rev ≡ some ph
      → left_pending (deploy_host env watch flake nodes ph rev notify s).0 ≡ true
      → Ended
          (λ run. plan_host name (apply_outcome hs run rev time) rev ≡ some ph)
          (settle env watch notify rev name
            (deploy_host env watch flake nodes ph rev notify s).0
            t).0
  round-pending name rev hs ph time s t hp hl =
      let r = (deploy_host env watch flake nodes ph rev notify s).0 in
      Ended-map (Settled name r) _ (settle env watch notify rev name r t).0
        (λ run h. again name rev hs ph time (outcome_of r) run hp hl h.outcome)
        ((Ends-settle env watch notify rev name r).at t)

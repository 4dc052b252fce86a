-- ===== src/Runner/Sparing.antt =====
-- crates/deptui-agent/src/runner.rs: a host that ends held, adopted or pending had no deploy started
-- on it; a first encounter starts none, and an approved host is never held.
use deptui.Prelude.{
  zero, suc, String, ◌≡◌, refl, ◌∙◌, Bool, true, false, ◌&&◌, not, Option, none, some, [], ◌∷◌,
  if◌then◌else◌, is_some,
}
use deptui.Prelude.Text.{ℤ, pos, negsuc, concat}
use deptui.Prelude.Map.{Map, first_key}
use deptui.Prelude.Result.{Result, ok, err}
use deptui.Config.{
  NotifyConfig, HostConfig, WatchConfig, bootstrap_deploys, drift_guard, ssh_override,
}
use deptui.Flake.{Node}
use deptui.Runner.{
  PlanHost, DeployOutcome, deployed, offline, cancelled, adopted, held, is_self_target, say,
}
use deptui.Runner.Guard.{check_drift}
use deptui.Runner.Push.{
  Drain, arm, by_exit, conclude, push, guarded_push, reached, managed_profiles,
}
use deptui.Runner.Quiet.{Quiet-say, Quiet-first_encounter, Quiet-check_drift}
use deptui.Effects.{Env, Machine, Act, pure, fail, lift, ◌>>=◌}
use deptui.Effects.Quiet.{started, Quiet, Quiet-pure, Quiet-if, Post, Post-bind}

-- The endings that leave a host alone.
abbrev pub spared : Result DeployOutcome → Bool
spared (ok (held m)) = true
spared (ok (adopted t)) = true
spared (ok (offline t m k)) = true
spared _ = false

pub record Spares (m : Act DeployOutcome) : Type 0 where
  pub at : (s : Machine) → spared (m s).0 ≡ true → started (m s).1.calls ≡ started s.calls

abbrev pub Unsparing : Result DeployOutcome → Type 0
Unsparing r = spared r ≡ false

pub Spares-Quiet : (m : Act DeployOutcome) → Quiet m → Spares m
Spares-Quiet m q = record { at = λ s h. q.at s }

contradiction : (b : Bool) → b ≡ false → b ≡ true → ⊥
contradiction true e h = cc
contradiction false e h = cc

Spares-Unsparing : (m : Act DeployOutcome) → Post Unsparing m → Spares m
Spares-Unsparing m p = record { at = λ s h. absurd (contradiction (spared (m s).0) (p.at s) h) }

Spares-if : (b : Bool) (m n : Act DeployOutcome) → Spares m → Spares n → Spares (if b then m else n)
Spares-if true m n sm sn = sm
Spares-if false m n sm sn = sn

module _ {A : Type 0} where
  Spares-rest :
      (r : Result A) (f : A → Act DeployOutcome) (s : Machine)
      → ((a : A) → Spares (f a))
      → spared ((lift r >>= f) s).0 ≡ true
      → started ((lift r >>= f) s).1.calls ≡ started s.calls
  unfolding ◌>>=◌
  Spares-rest (ok a) f s h e = (h a).at s e
  Spares-rest (err x) f s h e = refl

  pub Spares-bind :
      (m : Act A) (f : A → Act DeployOutcome)
      → Quiet m
      → ((a : A) → Spares (f a))
      → Spares (m >>= f)
  unfolding ◌>>=◌
  Spares-bind m f q h = record { at = λ s e. Spares-rest (m s).0 f (m s).1 h e ∙ q.at s }

  Unsparing-bind :
      (m : Act A) (f : A → Act DeployOutcome)
      → ((a : A) → Post Unsparing (f a))
      → Post Unsparing (m >>= f)
  Unsparing-bind m f h = Post-bind Unsparing m f (λ e. refl) h

Unsparing-fail : (e : String) → Post Unsparing (fail e)
unfolding fail
Unsparing-fail e = record { at = λ s. refl }

Unsparing-deployed : (t : Map String) → Post Unsparing (pure (deployed t))
unfolding pure
Unsparing-deployed t = record { at = λ s. refl }

Unsparing-cancelled : Post Unsparing (pure cancelled)
unfolding pure
Unsparing-cancelled = record { at = λ s. refl }

Unsparing-if :
    (b : Bool) (m n : Act DeployOutcome)
    → Post Unsparing m
    → Post Unsparing n
    → Post Unsparing (if b then m else n)
Unsparing-if true m n pm pn = pm
Unsparing-if false m n pm pn = pn

ruleset unsparing_rules =
    (Unsparing-bind, Unsparing-fail, Unsparing-deployed, Unsparing-cancelled, Unsparing-if)

module _ (env : Env) (watch : WatchConfig) (flake : String) where
  Unsparing-arm :
      (host : String) (hc : HostConfig) (node : Node)
      → Post Unsparing (arm env watch flake host hc node)
  unfolding arm
  Unsparing-arm host hc node = search unsparing_rules

  Unsparing-exit :
      (host : String) (hc : HostConfig) (node : Node) (code : Option ℤ)
      → Post Unsparing (by_exit env watch flake host hc node code)
  unfolding by_exit
  Unsparing-exit host hc node none = search unsparing_rules
  Unsparing-exit host hc node (some (pos zero)) = Unsparing-arm host hc node
  Unsparing-exit host hc node (some (pos (suc n))) = search unsparing_rules
  Unsparing-exit host hc node (some (negsuc n)) = search unsparing_rules

  Unsparing-spawn :
      (host : String) (hc : HostConfig) (node : Node) (code : Option ℤ) (e : Option String)
      → Post Unsparing (elim e [
        | some x ↦ fail (concat ("deploy failed to run: " ∷ x ∷ []))
        | none ↦ by_exit env watch flake host hc node code
      ])
  Unsparing-spawn host hc node code none = Unsparing-exit host hc node code
  Unsparing-spawn host hc node code (some x) = search unsparing_rules

  Unsparing-conclude :
      (host : String) (hc : HostConfig) (node : Node) (d : Drain)
      → Post Unsparing (conclude env watch flake host hc node d)
  unfolding conclude
  Unsparing-conclude host hc node d =
      Unsparing-if d.user_cancelled (pure cancelled) _ Unsparing-cancelled
        (Unsparing-spawn host hc node d.exit_code d.spawn_error)

  pub Unsparing-push :
      (notify : NotifyConfig) (rev host : String) (hc : HostConfig) (node : Node)
      → Post Unsparing (push env watch flake notify rev host hc node)
  unfolding push
  Unsparing-push notify rev host hc node = search (unsparing_rules, Unsparing-conclude) depth 9

  Spares-push :
      (notify : NotifyConfig) (rev host : String) (hc : HostConfig) (node : Node)
      → Spares (push env watch flake notify rev host hc node)
  Spares-push notify rev host hc node = Spares-Unsparing _ (Unsparing-push notify rev host hc node)

  Spares-hold :
      (notify : NotifyConfig) (rev : String) (ph : PlanHost) (hc : HostConfig) (node : Node)
      (hold : Option String)
      → Spares (elim hold [
        | some message ↦ pure (held message)
        | none ↦ push env watch flake notify rev ph.name hc node
      ])
  Spares-hold notify rev ph hc node none = Spares-push notify rev ph.name hc node
  Spares-hold notify rev ph hc node (some message) = Spares-Quiet _ (Quiet-pure (held message))

  Spares-guarded :
      (notify : NotifyConfig) (rev : String) (ph : PlanHost) (hc : HostConfig) (node : Node)
      → Spares (guarded_push env watch flake notify rev ph hc node)
  unfolding guarded_push
  Spares-guarded notify rev ph hc node =
      Spares-if (drift_guard hc && is_some (first_key ph.recorded_toplevels)) _ _
        (Spares-bind
          (check_drift env flake node (ssh_override hc) ph.name rev ph.recorded_toplevels) _
          (Quiet-check_drift env flake node (ssh_override hc) ph.name rev ph.recorded_toplevels)
          (Spares-hold notify rev ph hc node))
        (Spares-push notify rev ph.name hc node)

  ruleset spare_rules = (Spares-bind, Spares-if)

  pub Spares-reached :
      (notify : NotifyConfig) (rev : String) (ph : PlanHost) (hc : HostConfig) (node : Node)
      → Spares (reached env watch flake notify rev ph hc node)
  unfolding reached
  Spares-reached notify rev ph hc node =
      Spares-bind (if is_self_target env.hostname node.hostname then say _ else pure tt) _
        (Quiet-if (is_self_target env.hostname node.hostname) _ _ (Quiet-say _) (Quiet-pure tt))
        λ u.
          Spares-if (ph.adopt && not (bootstrap_deploys hc)) _ _
            (Spares-Quiet _ (
              Quiet-first_encounter env flake node (ssh_override hc) (managed_profiles hc node)
                (managed_profiles hc node) []))
            (Spares-guarded notify rev ph hc node)

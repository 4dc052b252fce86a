-- ===== src/Runner/Drift.antt =====
-- crates/deptui-agent/src/runner.rs: what the drift guard has seen of a host before a deploy goes out to it.
use deptui.Prelude.{
  String, ◌≡◌, ◌≢◌, refl, ap, ◌∙◌, Bool, true, false, ◌&&◌, Option, none, some, [], ◌∷◌, ◌==◌,
  arith, eq_iff, if◌then◌else◌, is_some, inl, inr, Bool-cases,
}
use deptui.Prelude.Map.{Map, first_key}
use deptui.Prelude.Result.{Result, ok, err}
use deptui.Ssh.{SshOverride}
use deptui.Config.{NotifyConfig, HostConfig, WatchConfig, drift_guard, ssh_override}
use deptui.Flake.{Node}
use deptui.Gitwatch.{is_ancestor}
use deptui.Remote.{read_remote_profile_path, read_remote_configuration_rev}
use deptui.Runner.{PlanHost, DeployOutcome, held, askpass_disabled}
use deptui.Runner.Guard.{drifted, compare_path, in_history, drift_at, check_drift}
use deptui.Runner.Push.{push, guarded_push}
use deptui.Runner.Quiet.{Quiet-check_drift}
use deptui.Effects.{Env, Machine, Act, pure, lift, attempt, ◌>>=◌}
use deptui.Effects.Quiet.{started}
use deptui.Effects.Ends.{bound_ok}

module _ (env : Env) (flake : String) (node : Node) (override : SshOverride) (rev : String) where
  abbrev path_of : String → Act (Option String)
  path_of profile = read_remote_profile_path env node profile override askpass_disabled

  abbrev rev_of : Act (Option String)
  rev_of = read_remote_configuration_rev env node override askpass_disabled

  -- The host runs a revision that is in the history of the watched one.
  pub record InHistory (s : Machine) : Type 0 where
    pub running : String
    pub read : (rev_of s).0 ≡ ok (some running)
    pub ancestor : (is_ancestor env flake running rev (rev_of s).1).0 ≡ ok true

  -- Each recorded path is what the host was seen to run, one after the other, up to the end or to a
  -- profile that changed while the host as a whole runs a revision in the watched history.
  pub data Cleared : Map String → Machine → Type 0 where
    all_same : {s : Machine} → Cleared [] s
    same :
        {s : Machine} {profile recorded : String} {rest : Map String}
        → (path_of profile s).0 ≡ ok (some recorded)
        → Cleared rest (path_of profile s).1
        → Cleared ((profile, recorded) ∷ rest) s
    blessed :
        {s : Machine} {profile recorded : String} {rest : Map String}
        → (current : String) → (path_of profile s).0 ≡ ok (some current)
        → InHistory (path_of profile s).1
        → Cleared ((profile, recorded) ∷ rest) s

  module _ (host : String) where
    said_yes :
        (yes' : Bool) (note : Act (Unit {0})) (s : Machine)
        → ((if yes' then (note >>= λ u. pure true) else pure false) s).0 ≡ ok true
        → yes' ≡ true
    unfolding pure
    said_yes true note s h = refl
    said_yes false note s h = cc

    in_history-InHistory :
        (s : Machine) (r : Result (Option String))
        → (rev_of s).0 ≡ r
        → (in_history env flake node override host rev r (rev_of s).1).0 ≡ ok true
        → InHistory s
    unfolding in_history
    in_history-InHistory s (err e) er h = cc
    in_history-InHistory s (ok none) er h = cc
    in_history-InHistory s (ok (some running)) er h =
        let (yes', e, h') = bound_ok (is_ancestor env flake running rev) _ (rev_of s).1 true h in
        record { running = running; read = er; ancestor = e ∙ ap ok (said_yes yes' _ _ h') }

    let_go :
        (ok_over : Bool) (message : String) (s : Machine)
        → (pure (if ok_over then none else some message) s).0 ≡ ok none
        → ok_over ≡ true
    unfolding pure
    let_go true message s h = refl
    let_go false message s h = cc

    weighed :
        (r : Result (Option String)) (t : Machine) (message : String)
        → ((in_history env flake node override host rev r >>= λ ok_over.
              pure (if ok_over then none else some message))
            t).0
          ≡ ok none
        → (in_history env flake node override host rev r t).0 ≡ ok true
    weighed r t message h =
        let (ok_over, e, h') =
          bound_ok (in_history env flake node override host rev r)
            (λ ok_over. pure (if ok_over then none else some message)) t none h in
        e ∙ ap ok (let_go ok_over message _ h')

    drift_at-InHistory :
        (s : Machine) (profile current recorded : String)
        → (drift_at env flake node override host rev profile current recorded s).0 ≡ ok none
        → InHistory s
    unfolding drift_at attempt ◌>>=◌
    drift_at-InHistory s profile current recorded h =
        in_history-InHistory s (rev_of s).0 refl
          (weighed (rev_of s).0 (rev_of s).1 (drifted profile current recorded) h)

    branch_true :
        (b : Bool) (x y : Act (Option String)) (s : Machine)
        → b ≡ true
        → ((if b then x else y) s).0 ≡ ok none
        → (x s).0 ≡ ok none
    branch_true true x y s e h = h
    branch_true false x y s e h = cc

    branch_false :
        (b : Bool) (x y : Act (Option String)) (s : Machine)
        → b ≡ false
        → ((if b then x else y) s).0 ≡ ok none
        → (y s).0 ≡ ok none
    branch_false false x y s e h = h
    branch_false true x y s e h = cc

    Cleared-compare_path :
        (s : Machine) (profile recorded : String) (rest : Map String) (r : Result (Option String))
        → (path_of profile s).0 ≡ r
        → ((t : Machine)
            → (check_drift env flake node override host rev rest t).0 ≡ ok none
            → Cleared rest t)
        → (compare_path profile recorded r
            (check_drift env flake node override host rev rest)
            (λ current. drift_at env flake node override host rev profile current recorded)
            (path_of profile s).1).0
          ≡ ok none
        → Cleared ((profile, recorded) ∷ rest) s
    unfolding compare_path pure
    Cleared-compare_path s profile recorded rest (err e) er ih h = cc
    Cleared-compare_path s profile recorded rest (ok none) er ih h = cc
    Cleared-compare_path s profile recorded rest (ok (some current)) er ih h =
        let next = check_drift env flake node override host rev rest in
        let weigh = drift_at env flake node override host rev profile current recorded in
        elim (Bool-cases (current == recorded)) [
          | inl e ↦ same (er ∙ ap (λ c. ok (some c)) ((eq_iff current recorded).0 e)) (
              ih (path_of profile s).1
                (branch_true (current == recorded) next weigh (path_of profile s).1 e h))
          | inr e ↦ blessed current er (
              drift_at-InHistory (path_of profile s).1 profile current recorded
                (branch_false (current == recorded) next weigh (path_of profile s).1 e h))
        ]

    check_drift-Cleared :
        (recorded : Map String) (s : Machine)
        → (check_drift env flake node override host rev recorded s).0 ≡ ok none
        → Cleared recorded s
    unfolding check_drift attempt ◌>>=◌
    check_drift-Cleared [] s h = all_same
    check_drift-Cleared ((profile, path) ∷ rest) s h =
        Cleared-compare_path s profile path rest (path_of profile s).0 refl
          (check_drift-Cleared rest) h

guard_taken :
    (b : Bool) (m n : Act DeployOutcome) (s : Machine)
    → b ≡ true
    → started ((if b then m else n) s).1.calls ≢ started s.calls
    → started (m s).1.calls ≢ started s.calls
guard_taken true m n s e h = h
guard_taken false m n s e h = cc

module _ (env : Env) (watch : WatchConfig) (flake : String) (notify : NotifyConfig) where
  -- What the verdict of the guard lets happen.
  Cleared-verdict :
      (rev : String) (ph : PlanHost) (hc : HostConfig) (node : Node) (s : Machine)
      (r : Result (Option String))
      → (check_drift env flake node (ssh_override hc) ph.name rev ph.recorded_toplevels s).0 ≡ r
      → started
          ((lift r >>= λ hold. elim hold [
            | some message ↦ pure (held message)
            | none ↦ push env watch flake notify rev ph.name hc node
          ])
            (check_drift env flake node
              (ssh_override hc)
              ph.name
              rev
              ph.recorded_toplevels
              s).1).1.calls
        ≢ started s.calls
      → Cleared env flake node (ssh_override hc) rev ph.recorded_toplevels s
  unfolding ◌>>=◌ pure
  Cleared-verdict rev ph hc node s (ok none) e h =
      check_drift-Cleared env flake node (ssh_override hc) rev ph.name ph.recorded_toplevels s e
  Cleared-verdict rev ph hc node s (ok (some m)) e h = absurd (
      h (
        (Quiet-check_drift env flake node (ssh_override hc) ph.name rev ph.recorded_toplevels).at
          s))
  Cleared-verdict rev ph hc node s (err x) e h = absurd (
      h (
        (Quiet-check_drift env flake node (ssh_override hc) ph.name rev ph.recorded_toplevels).at
          s))

  -- With the drift guard on and paths recorded, a deploy goes out only to a host that was seen to
  -- run each of the recorded paths, one after the other, up to the end or to a profile that changed
  -- while the host runs a revision in the watched history.
  pub guarded_push-Cleared :
      (rev : String) (ph : PlanHost) (hc : HostConfig) (node : Node) (s : Machine)
      → drift_guard hc ≡ true
      → is_some (first_key ph.recorded_toplevels) ≡ true
      → started (guarded_push env watch flake notify rev ph hc node s).1.calls ≢ started s.calls
      → Cleared env flake node (ssh_override hc) rev ph.recorded_toplevels s
  unfolding guarded_push ◌>>=◌
  guarded_push-Cleared rev ph hc node s hg hr h =
      Cleared-verdict rev ph hc node s
        (check_drift env flake node (ssh_override hc) ph.name rev ph.recorded_toplevels s).0 refl
        (guard_taken (drift_guard hc && is_some (first_key ph.recorded_toplevels)) _ _ s
          (ground arith) h)

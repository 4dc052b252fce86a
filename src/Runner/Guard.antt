-- ===== src/Runner/Guard.antt =====
-- crates/deptui-agent/src/runner.rs: what `deploy_host` does before it overwrites a host: the
-- first-encounter probe and the drift guard.
use deptui.Prelude.{
  String, Bool, true, false, Option, none, some, List, [], ◌∷◌, ◌==◌, if◌then◌else◌, same_number,
  length,
}
use deptui.Prelude.Text.{concat, is_empty, short_rev}
use deptui.Prelude.Strip.{basename}
use deptui.Prelude.Map.{Map, insert}
use deptui.Prelude.Result.{Result, ok, err}
use deptui.Ssh.{SshOverride}
use deptui.Flake.{Node}
use deptui.Gitwatch.{is_ancestor}
use deptui.Remote.{read_remote_profile_path, read_remote_configuration_rev}
use deptui.Remote.Check.{ProfileCheck, check_profile_up_to_date}
use deptui.Runner.{DeployOutcome, adopted, held, askpass_disabled, say}
use deptui.Effects.{Env, Act, pure, attempt, ◌>>=◌}

-- A baseline that misses a profile is dropped whole.
unfoldable pub whole_baseline : Map String → List String → Map String
whole_baseline toplevels profiles =
    if same_number (length toplevels) (length profiles) then toplevels else []

-- What a profile's check adds to the baseline, or why the host is held.
unfoldable pub judge_profile : String → Map String → Result ProfileCheck → Result (Map String)
judge_profile profile toplevels (err e) = err (concat ("first-encounter probe failed: " ∷ e ∷ []))
judge_profile profile toplevels (ok check) =
    if check.up_to_date
    then ok (
        if is_empty check.remote_path
        then toplevels
        else insert profile check.remote_path toplevels)
    else if check.not_deployed
    then err (concat ("profile `" ∷ profile ∷ "` has never been deployed there" ∷ []))
    else err (concat ("profile `" ∷ profile ∷ "` differs from the watched revision" ∷ []))

abbrev pub drifted : String → String → String → String
drifted profile current recorded = concat (
    "profile `"
    ∷ profile
    ∷ "` changed on the host since the agent's last deploy (running "
    ∷ basename current
    ∷ ", agent left "
    ∷ basename recorded
    ∷ ") — protecting possible work in progress"
    ∷ [])

abbrev gone : String → String → String
gone profile recorded = concat (
    "profile `"
    ∷ profile
    ∷ "` is no longer deployed on the host (the agent last left "
    ∷ basename recorded
    ∷ ")"
    ∷ [])

abbrev blessed : String → String → String
blessed host rev = concat (
    "["
    ∷ host
    ∷ "] note: host was deployed out-of-band to "
    ∷ short_rev rev
    ∷ " — that commit is in the watched history, updating over it"
    ∷ [])

-- Hold the host with the message, or go on with the larger baseline.
unfoldable pub or_hold : Result (Map String) → (Map String → Act DeployOutcome) → Act DeployOutcome
or_hold (err message) next = pure (held message)
or_hold (ok toplevels) next = next toplevels

-- The path that the host runs against the recorded one: `same` and `differs` go on from there.
unfoldable pub compare_path :
    String
    → String
    → Result (Option String)
    → Act (Option String)
    → (String → Act (Option String))
    → Act (Option String)
compare_path profile recorded (err e) same differs =
    pure (some (concat ("drift-guard probe failed: " ∷ e ∷ [])))
compare_path profile recorded (ok none) same differs = pure (some (gone profile recorded))
compare_path profile recorded (ok (some current)) same differs =
    if current == recorded then same else differs current

-- Give the baseline up at the first path that cannot be read.
unfoldable pub or_disarm : Result (Option String) → (String → Act (Map String)) → Act (Map String)
or_disarm (err e) next = pure []
or_disarm (ok none) next = pure []
or_disarm (ok (some path)) next = next path

module _ (env : Env) (flake : String) (node : Node) (override : SshOverride) where
  -- The loop over the managed profiles: hold at the first that differs, adopt if none does.
  unfoldable pub first_encounter : List String → List String → Map String → Act DeployOutcome
  unfolding judge_profile whole_baseline or_hold attempt ◌>>=◌
  first_encounter profiles [] toplevels = pure (adopted (whole_baseline toplevels profiles))
  first_encounter profiles (profile ∷ rest) toplevels = do
    r ← attempt (check_profile_up_to_date env flake node profile override askpass_disabled)
    or_hold (judge_profile profile toplevels r) (first_encounter profiles rest)

  -- Is the revision that the host runs in the watched history? Says so when it is.
  unfoldable pub in_history : String → String → Result (Option String) → Act Bool
  unfolding ◌>>=◌
  in_history host rev (err e) = pure false
  in_history host rev (ok none) = pure false
  in_history host rev (ok (some running)) = do
    yes' ← is_ancestor env flake running rev
    if yes' then (say (blessed host running) >>= λ u. pure true) else pure false

  -- A profile that runs another path than the agent left: `none` lets the deploy go on.
  unfoldable pub drift_at : String → String → String → String → String → Act (Option String)
  unfolding in_history attempt ◌>>=◌
  drift_at host rev profile current recorded = do
    r ← attempt (read_remote_configuration_rev env node override askpass_disabled)
    ok_over ← in_history host rev r
    pure (if ok_over then none else some (drifted profile current recorded))

  -- The loop over the recorded paths: `some` message holds the host, `none` lets the deploy go on.
  -- One blessed generation covers the whole host.
  unfoldable pub check_drift : String → String → Map String → Act (Option String)
  unfolding drift_at compare_path attempt ◌>>=◌
  check_drift host rev [] = pure none
  check_drift host rev ((profile, recorded) ∷ rest) = do
    r ← attempt (read_remote_profile_path env node profile override askpass_disabled)
    compare_path profile recorded r (check_drift host rev rest)
        λ current. drift_at host rev profile current recorded

  -- What activation left on the host: every profile's path, or nothing.
  unfoldable pub read_back : List String → Map String → Act (Map String)
  unfolding or_disarm attempt ◌>>=◌
  read_back [] toplevels = pure toplevels
  read_back (profile ∷ rest) toplevels = do
    r ← attempt (read_remote_profile_path env node profile override askpass_disabled)
    or_disarm r λ path. read_back rest (insert profile path toplevels)

-- ===== src/Runner.antt =====
-- crates/deptui-agent/src/runner.rs: the plan of a run, how a host can end, and what ssh said when
-- the agent could not get in.
pub mod Guard
pub mod Push
pub mod Execute
pub mod Quiet
pub mod Sparing
pub mod Hosts
pub mod Adoption
pub mod Drift
pub mod Endings
pub mod Records
use Prim.Native.Nat.{min}
use deptui.Prelude.{
  ℕ, ◌+◌, ◌<◌, String, Bool, true, false, ◌&&◌, ◌||◌, not, Option, none, some, List, [], ◌∷◌, ◌++◌,
  ◌==◌, if◌then◌else◌, any_by, length, filter_by, same_number, ltb,
}
use deptui.Prelude.Text.{concat, join, trim, split_on, contains_text, is_empty, decimal}
use deptui.Prelude.Strip.{strip_suffix, before}
use deptui.Prelude.Map.{Map}
use deptui.Prelude.Result.{Result, ok, err}
use deptui.Wire.{OfflineKind, down, denied, stalled}
use deptui.State.{HostRun, max_run_log}
use deptui.Ssh.{SshOverride, ssh_args}
use deptui.Deploy.{AskpassEnv}
use deptui.Effects.{Process, Output, Env, Machine, Act, pure, said, output_within, ◌>>=◌, ◌>>◌}

pub record PlanHost : Type 0 where
  pub name : String
  pub adopt : Bool
  pub recorded_toplevels : Map String

pub record RunPlan : Type 0 where
  pub run_id : ℕ
  pub rev : String
  pub trigger : String
  pub hosts : List PlanHost

pub record Unreachable : Type 0 where
  pub kind : OfflineKind
  pub message : String

pub data DeployOutcome : Type 0 where
  deployed : Map String → DeployOutcome
  offline : String → String → OfflineKind → DeployOutcome
  cancelled : DeployOutcome
  adopted : Map String → DeployOutcome
  held : String → DeployOutcome

headline_of : OfflineKind → String → String
headline_of down message = concat ("UNREACHABLE: " ∷ message ∷ [])
headline_of denied message = concat ("SSH DENIED (host is up): " ∷ message ∷ [])
headline_of stalled message = concat ("SSH UNRESPONSIVE (port open, no handshake): " ∷ message ∷ [])

unfoldable pub headline : Unreachable → String
unfolding headline_of
headline u = headline_of u.kind u.message

unfoldable pub label : OfflineKind → String
label down = "offline"
label denied = "ssh denied"
label stalled = "ssh unresponsive"

abbrev pub denied_phrases : List String
denied_phrases =
    "Permission denied" ∷ "Host key verification failed" ∷ "Too many authentication failures"
    ∷ "REMOTE HOST IDENTIFICATION HAS CHANGED" ∷ "no matching host key type"
    ∷ "no matching key exchange method" ∷ "no matching cipher" ∷ "Authentication failed" ∷ []

abbrev pub stalled_phrases : List String
stalled_phrases =
    "banner exchange" ∷ "kex_exchange_identification" ∷ "Connection closed by remote host"
    ∷ "Connection reset by peer" ∷ []

unfoldable pub classify_miss : String → OfflineKind
classify_miss stderr =
    if any_by (contains_text stderr) denied_phrases
    then denied
    else if any_by (contains_text stderr) stalled_phrases
    then stalled
    else down

trimmed_pieces : List String → List String
trimmed_pieces [] = []
trimmed_pieces (l ∷ rest) =
    let pieces = trimmed_pieces rest in if is_empty (trim l) then pieces else trim l ∷ pieces

unfoldable pub tidy_stderr : String → String
unfolding trim split_on trimmed_pieces
tidy_stderr raw =
    join "; " (trimmed_pieces (split_on (λ c. same_number c 10 || same_number c 13) raw))

unfoldable pub probe_process : String → SshOverride → Process
unfolding ssh_args
probe_process target override = record {
  program = "ssh";
  args =
      "-o"
      ∷ "BatchMode=yes"
      ∷ "-o"
      ∷ "ConnectTimeout=5"
      ∷ (ssh_args override ++ target ∷ "true" ∷ []);
  dir = none;
  vars = [];
}

-- What the probe's reply means: `none` is a host that let the agent in.
unfoldable pub probe_verdict : Option (Result Output) → Option Unreachable
unfolding classify_miss tidy_stderr
probe_verdict none = some (record { kind = down; message = "ssh probe timed out" })
probe_verdict (some (err e)) =
    some (record { kind = down; message = concat ("spawning ssh: " ∷ e ∷ []) })
probe_verdict (some (ok out)) =
    if out.success
    then none
    else some
        (record { kind = classify_miss (tidy_stderr out.stderr); message = tidy_stderr out.stderr })

abbrev pub outcome_names : List String
outcome_names =
    "ok" ∷ "adopted" ∷ "held" ∷ "offline" ∷ "denied" ∷ "stalled" ∷ "failed" ∷ "cancelled"
    ∷ "skipped" ∷ []

count_outcome : List HostRun → String → ℕ
count_outcome hosts what = length (filter_by (λ h. h.outcome == what) hosts)

outcome_parts : List HostRun → List String → List String
unfolding count_outcome decimal
outcome_parts hosts [] = []
outcome_parts hosts (what ∷ rest) =
    let n = count_outcome hosts what in
    let parts = outcome_parts hosts rest in
    if ltb 0 n then concat (decimal n ∷ " " ∷ what ∷ []) ∷ parts else parts

summary_text : List String → String
summary_text [] = "nothing to do"
summary_text (p ∷ rest) = join ", " (p ∷ rest)

unfoldable pub summarize_outcomes : List HostRun → String
unfolding outcome_parts summary_text
summarize_outcomes hosts = summary_text (outcome_parts hosts outcome_names)

is_text : String → Option String → Bool
is_text s none = false
is_text s (some t) = t == s

unfoldable pub is_self_target : String → String → Bool
unfolding strip_suffix before is_text
is_self_target local node =
    if is_empty local
    then false
    else node == local
      || node == "localhost"
      || is_text local (strip_suffix ".localdomain" node)
      || before b'.' node == local

abbrev pub askpass_disabled : AskpassEnv
askpass_disabled = record { script_path = "/bin/false"; socket_path = "/dev/null" }

-- The run's log: the line goes to the tail, and into the record while there is room.
unfoldable pub say : String → Act (Unit {0})
say text m = (
  ok tt,
  record m {
    calls = said text ∷ m.calls;
    log = if ltb (length m.log) max_run_log then m.log ++ text ∷ [] else m.log;
  },
)

module _ (env : Env) where
  unfoldable pub check_reachable : String → SshOverride → Act (Option Unreachable)
  unfolding probe_process probe_verdict output_within ◌>>=◌
  check_reachable target override = do
    reply ← output_within env 15 (probe_process target override)
    pure (probe_verdict reply)

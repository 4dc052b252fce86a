-- ===== src/Tests/Data.antt =====
-- The concrete world that the tests run in: one watch with the hosts `alpha` and `beta`.
use deptui.Prelude.{pos, true, false, none, some, [], ◌∷◌, ◌==◌, if◌then◌else◌}
use deptui.Prelude.Result.{Result, ok}
use deptui.Config.{NotifyConfig, HostConfig, WatchConfig, AgentConfig}
use deptui.Deploy.{stdout, exit}
use deptui.Flake.{Node}
use deptui.State.{HostRun, RunRecord, HostState, new_host, new_state}
use deptui.Runner.{PlanHost, RunPlan}
use deptui.Daemon.{Clocks, Daemon, System}
use deptui.Effects.{Env, Machine, Process, Output, line, cancel_changed}

abbrev pub quiet_notify : NotifyConfig
quiet_notify = record { on_failure = none; url = none; kind = none; token_file = none; events = [] }

abbrev pub plain_host : HostConfig
plain_host = record {
  profile = some "system";
  mode = none;
  skip_checks = none;
  magic_rollback = none;
  auto_rollback = none;
  remote_build = none;
  interactive_sudo = none;
  bootstrap = none;
  catch_up = some false;
  drift_guard = none;
  extra_build_args = [];
  ssh = none;
}

-- A host whose updates wait until it answers.
abbrev pub waiting_host : HostConfig
waiting_host = record plain_host { catch_up = some true }

abbrev pub fleet : WatchConfig
fleet = record {
  name = "fleet";
  repo = "git@example.org:fleet";
  branch = some "main";
  tag = none;
  interval = some "5m";
  cron = none;
  offline_recheck = none;
  git_crypt_key_file = none;
  post_checkout = none;
  hosts = ("alpha", plain_host) ∷ ("beta", waiting_host) ∷ [];
}

abbrev pub config : AgentConfig
config = record {
  socket = "/run/agent.sock";
  state_dir = "/var/lib/agent";
  listen = none;
  notify = quiet_notify;
  watches = fleet ∷ [];
  source_path = none;
}

abbrev pub alpha : Node
alpha = record {
  name = "alpha";
  hostname = "alpha.example.org";
  ssh_user = some "root";
  profiles = ("system", record { user = some "root"; ssh_user = none }) ∷ [];
  profiles_order = none;
}

abbrev pub beta : Node
beta = record alpha { name = "beta"; hostname = "beta.example.org" }

-- `git ls-remote` finds a head; everything else says nothing.
abbrev answer : Process → Result Output
answer p = ok (record {
  success = true;
  status = "exit status: 0";
  stdout = if p.program == "git" then "abc123 refs/heads/main" else "";
  stderr = "";
})

-- Deploys exit with status zero, and the probes of ssh time out.
abbrev pub world : Env
world = record {
  now = λ calls. 1000;
  output = λ calls p. answer p;
  output_within = λ calls secs p. none;
  exists = λ calls path. true;
  make_dir = λ calls path. ok tt;
  read_file = λ calls path. none;
  hostname = "agent";
  cancel_flag = λ calls. false;
  deploy_events = λ calls req. line (stdout "building") ∷ line (exit (pos 0)) ∷ [];
  parse_nodes = λ text. ok (alpha ∷ beta ∷ []);
  parse_revision = λ text. none;
}

-- The same world with a user who cancels every deploy.
abbrev pub cancelling : Env
cancelling = record world { deploy_events = λ calls req. cancel_changed (some true) ∷ [] }

abbrev pub blank : Machine
blank = record { calls = []; log = [] }

abbrev pub clocks : Clocks
clocks = record { instant = λ calls. 7; cron_delay = λ calls expr. none }

abbrev pub rested : Daemon
rested = record {
  cfg = config;
  state = new_state;
  cadences = [];
  next_poll = ("fleet", 7) ∷ [];
  recheck_at = [];
  running = none;
  validating = false;
  pending = [];
  restart_wanted = false;
  pubkey = none;
}

abbrev pub at_rest : System
at_rest = record { daemon = rested; machine = blank; saves = []; runs = [] }

abbrev pub approved_host : HostState
approved_host = record new_host { approved = true }

abbrev pub alpha_plan : PlanHost
alpha_plan = record { name = "alpha"; adopt = false; recorded_toplevels = [] }

abbrev pub beta_plan : PlanHost
beta_plan = record { name = "beta"; adopt = true; recorded_toplevels = [] }

abbrev pub round_plan : RunPlan
round_plan = record {
  run_id = 1;
  rev = "abc123";
  trigger = "poll";
  hosts = alpha_plan ∷ beta_plan ∷ [];
}

abbrev pub alpha_failed : HostRun
alpha_failed = record {
  host = "alpha";
  outcome = "failed";
  message = some "deploy exited with code 1";
  target = none;
  toplevels = [];
}

abbrev pub beta_stalled : HostRun
beta_stalled = record {
  host = "beta";
  outcome = "stalled";
  message = some "kex_exchange_identification";
  target = some "root@beta";
  toplevels = [];
}

abbrev pub first_run : RunRecord
first_run = record {
  id = 1;
  rev = "abc123";
  trigger = "poll";
  started = 900;
  finished = some 1000;
  hosts = alpha_failed ∷ beta_stalled ∷ [];
  log = [];
}

-- A world whose hosts run the path that the agent left.
abbrev pub settled : Env
settled = record world {
  output = λ calls p. ok (record {
    success = true;
    status = "exit status: 0";
    stdout = "/nix/store/aaa-system";
    stderr = "";
  });
}

abbrev pub guarded_plan : PlanHost
guarded_plan = record {
  name = "alpha";
  adopt = false;
  recorded_toplevels = ("system", "/nix/store/aaa-system") ∷ [];
}

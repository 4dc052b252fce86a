-- ===== src/Effects.antt =====
-- What the agent does to the world and hears from it. A machine holds the calls made so far, newest
-- first, and the log that the run in progress has captured. The environment answers each call with
-- a function of all calls before it, so it may change its mind at any time.
pub mod Quiet
pub mod Ends
use deptui.Prelude.{ℕ, String, Bool, Option, none, some, List, [], ◌∷◌, ◌≡◌, refl}
use deptui.Prelude.Result.{Result, ok, err}
use deptui.Config.{WebhookKind}
use deptui.Deploy.{DeployRequest, LogLine}
use deptui.Flake.{Node}
use deptui.Notify.{Event}

-- A child process: its program, arguments, working directory and added environment variables.
pub record Process : Type 0 where
  pub program : String
  pub args : List String
  pub dir : Option String
  pub vars : List (String × String)

pub record Output : Type 0 where
  pub success : Bool
  pub status : String
  pub stdout : String
  pub stderr : String

-- What a deploy's select loop receives: a line, or a change of the run's cancel flag, which holds
-- the new value unless the sender is gone.
pub data DeployEvent : Type 0 where
  line : LogLine → DeployEvent
  cancel_changed : Option Bool → DeployEvent

pub data Call : Type 0 where
  spawned : Process → Call
  said : String → Call
  hooked : String → Event → Call
  posted : String → WebhookKind → Option String → Event → Call
  started_deploy : DeployRequest → Call
  killed_deploy : Call
  made_dir : String → Call

pub record Env : Type 0 where
  pub now : List Call → ℕ
  pub output : List Call → Process → Result Output
  -- an output within so many seconds, if it came
  pub output_within : List Call → ℕ → Process → Option (Result Output)
  pub exists : List Call → String → Bool
  pub make_dir : List Call → String → Result (Unit {0})
  pub read_file : List Call → String → Option String
  pub hostname : String
  pub cancel_flag : List Call → Bool
  pub deploy_events : List Call → DeployRequest → List DeployEvent
  -- `serde_json` on the output of `nix eval`, and on that of `nixos-version --json`
  pub parse_nodes : String → Result (List Node)
  pub parse_revision : String → Option String

pub record Machine : Type 0 where
  pub calls : List Call
  pub log : List String

abbrev pub Act : Type 0 → Type 0
Act A = Machine → Result A × Machine

module _ {A : Type 0} where
  unfoldable pub pure : A → Act A
  pure a m = (ok a, m)

  unfoldable pub fail : String → Act A
  fail e m = (err e, m)

  unfoldable pub lift : Result A → Act A
  lift r m = (r, m)

  -- The result as a value: what a `match` on it sees.
  unfoldable pub attempt : Act A → Act (Result A)
  attempt act m = let (r, m') = act m in (ok r, m')

module _ {A B : Type 0} where
  abbrev resume : Result A → (A → Act B) → Act B
  resume (ok a) f m = f a m
  resume (err e) f m = (err e, m)

  infixl 10 ◌>>=◌ ◌>>◌
  unfoldable pub ◌>>=◌ : Act A → (A → Act B) → Act B
  unfolding pure fail lift attempt
  ◌>>=◌ act f m = let (r, m') = act m in resume r f m'

  abbrev pub ◌>>◌ : Act A → Act B → Act B
  a >> b = a >>= λ _. b

-- `f` on the result, keeping the machine: `map_err` and the like.
unfoldable pub map_result : {A B : Type 0} → (Result A → Result B) → Act A → Act B
map_result f act m = let (r, m') = act m in (f r, m')

-- One call, and the answer that it gets.
unfoldable pub ask : {A : Type 0} → Call → (List Call → Result A) → Act A
ask call answer m = (answer m.calls, record m { calls = call ∷ m.calls })

-- A question that leaves no trace.
unfoldable pub look : {A : Type 0} → (List Call → A) → Act A
look answer m = (ok (answer m.calls), m)

unfoldable pub tell : Call → Act (Unit {0})
tell call m = (ok tt, record m { calls = call ∷ m.calls })

module _ (env : Env) where
  unfoldable pub output : Process → Act Output
  unfolding ask
  output p = ask (spawned p) λ calls. env.output calls p

  unfoldable pub output_within : ℕ → Process → Act (Option (Result Output))
  unfolding ask
  output_within secs p = ask (spawned p) λ calls. ok (env.output_within calls secs p)

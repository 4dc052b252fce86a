-- ===== src/Deploy.antt =====
-- crates/deptui-core/src/deploy.rs: a deploy request and the invocations that it expands to.
pub mod Plans
use deptui.Prelude.{
  ℤ, String, Bool, true, false, not, Option, none, some, List, [], ◌∷◌, map, ◌==◌, if◌then◌else◌,
  filter_by, all_by,
}
use deptui.Prelude.Text.{concat}
use deptui.Ssh.{SshOverride}
use deptui.Flake.{Node}

pub data Mode : Type 0 where
  switch boot dry_run : Mode

pub data ProfileSel : Type 0 where
  all system home : ProfileSel

unfoldable pub mode_label : Mode → String
mode_label switch = "switch"
mode_label boot = "boot"
mode_label dry_run = "dry-run"

unfoldable pub profile_label : ProfileSel → String
profile_label all = "all"
profile_label system = "system"
profile_label home = "home"

unfoldable pub target_suffix : ProfileSel → String
target_suffix all = ""
target_suffix system = ".system"
target_suffix home = ".home"

pub record Toggles : Type 0 where
  pub skip_checks : Bool
  pub magic_rollback : Bool
  pub auto_rollback : Bool
  pub remote_build : Bool
  pub interactive_sudo : Bool

-- `Toggles::default()`, deploy-rs's own defaults.
abbrev pub default_toggles : Toggles
default_toggles = record {
  skip_checks = false;
  magic_rollback = true;
  auto_rollback = true;
  remote_build = false;
  interactive_sudo = false;
}

pub record ProfileInfo : Type 0 where
  pub name : String
  pub user : Option String

pub record Invocation : Type 0 where
  pub suffix : String
  pub ssh_user : Option String
  pub override_withheld : Bool

pub record SeedPlan : Type 0 where
  pub substituters : List String
  pub keys : List String
  pub paths : List String

pub record AskpassEnv : Type 0 where
  pub script_path : String
  pub socket_path : String

pub record DeployRequest : Type 0 where
  pub flake : String
  pub node : String
  pub profile : ProfileSel
  pub mode : Mode
  pub toggles : Toggles
  pub ssh_override : SshOverride
  pub askpass : AskpassEnv
  pub profiles : List ProfileInfo
  pub extra_build_args : List String
  pub seed : Option SeedPlan
  pub node_info : Option Node

-- Can the override's login serve this profile? An unset user, the same user and root do.
unfoldable pub override_fits : ProfileInfo → String → Bool
override_fits profile override_user = elim profile.user [
  | none ↦ true
  | some u ↦ if u == override_user then true else if u == "root" then true else false
]

unfoldable pub target_with : DeployRequest → String → String
target_with r suffix = concat (r.flake ∷ "#" ∷ r.node ∷ suffix ∷ [])

unfoldable pub selects : ProfileSel → String → Bool
selects all name = true
selects system name = name == "system"
selects home name = name == "home"

unfoldable pub selected_profiles : DeployRequest → List ProfileInfo
unfolding selects
selected_profiles r = filter_by (λ p. selects r.profile p.name) r.profiles

unfoldable pub split_invocation : String → ProfileInfo → Invocation
unfolding override_fits
split_invocation user p =
    let fits = override_fits p user in
    record {
      suffix = concat ("." ∷ p.name ∷ []);
      ssh_user = if fits then some user else none;
      override_withheld = not fits;
    }

abbrev whole : DeployRequest → Option String → Bool → List Invocation
whole r user withheld =
    record { suffix = target_suffix r.profile; ssh_user = user; override_withheld = withheld } ∷ []

-- What `plan` does with an override for `user`, by the profiles that are selected.
unfoldable pub plan_override : DeployRequest → String → List ProfileInfo → List Invocation
unfolding target_suffix override_fits
plan_override r user [] = whole r (some user) false
plan_override r user (p ∷ ps) =
    if all_by (λ q. override_fits q user) (p ∷ ps)
    then whole r (some user) false
    else if all_by (λ q. not (override_fits q user)) (p ∷ ps)
    then whole r none true
    else map (split_invocation user) (p ∷ ps)

unfoldable pub plan : DeployRequest → List Invocation
unfolding target_suffix selected_profiles plan_override
plan r = elim r.ssh_override.user [
  | none ↦ whole r none false
  | some user ↦ plan_override r user (selected_profiles r)
]

-- A line of a running deploy's output, and how it ended. An exit status is an `i32`.
pub data LogLine : Type 0 where
  stdout stderr sudo_prompt : String → LogLine
  exit : ℤ → LogLine
  error : String → LogLine

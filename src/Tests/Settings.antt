-- ===== src/Tests/Settings.antt =====
-- Tests of the configuration, of a node's profiles and of a deploy's plan.
use deptui.Prelude.{String, ◌≡◌, refl, none, some, [], ◌∷◌, All, is_none, arith}
use deptui.Prelude.Text.{member, trim}
use deptui.Prelude.Map.{contains_key}
use deptui.Prelude.Result.{Result, ok}
use deptui.Ssh.{no_override}
use deptui.Config.{parse_duration}
use deptui.Config.Validate.{validate}
use deptui.Config.Accepted.{ValidWatch, Unseen, validate-ValidWatch}
use deptui.Config.Durations.{Part, hours, minutes, parse_duration-total}
use deptui.Deploy.{Invocation, DeployRequest, all, switch, default_toggles, selected_profiles, plan}
use deptui.Deploy.Plans.{Served, plan-Served}
use deptui.Flake.{Node, ordered_profiles}
use deptui.Flake.Order.{Once, ordered_profiles-Once}
use deptui.Runner.{askpass_disabled}
use deptui.Tests.Data.{config, alpha}

abbrev any_cron : String → Result (Unit {0})
any_cron text = ok tt

validate-ValidWatch_example :
    All (ValidWatch any_cron) config.watches × Unseen any_cron [] config.watches
unfolding validate
validate-ValidWatch_example = validate-ValidWatch any_cron config refl

abbrev one_hour : Part
one_hour = record { first = "1"; more = []; unit = hours }

abbrev thirty_minutes : Part
thirty_minutes = record { first = "3"; more = "0" ∷ []; unit = minutes }

parse_duration-total_example : parse_duration " 1h30m" ≡ ok 5400
unfolding trim
parse_duration-total_example =
    parse_duration-total " 1h30m" one_hour (thirty_minutes ∷ []) refl
      ((refl, tt), ((refl, (refl, tt)), tt)) (omega arith) (omega arith)

abbrev two_profiles : Node
two_profiles = record alpha {
  profiles =
      ("home", record { user = some "me"; ssh_user = none })
      ∷ ("system", record { user = some "root"; ssh_user = none })
      ∷ [];
  profiles_order = some ("system" ∷ "other" ∷ "system" ∷ []);
}

ordered_profiles-Once_example :
    Once (ordered_profiles two_profiles)
    × (member "home" (ordered_profiles two_profiles) ≡ contains_key "home" two_profiles.profiles)
ordered_profiles-Once_example = ordered_profiles-Once two_profiles "home"

abbrev mixed : DeployRequest
mixed = record {
  flake = "/clone";
  node = "alpha";
  profile = all;
  mode = switch;
  toggles = default_toggles;
  ssh_override = record no_override { user = some "admin" };
  askpass = askpass_disabled;
  profiles =
      record { name = "system"; user = some "root" }
      ∷ record { name = "home"; user = some "me" }
      ∷ [];
  extra_build_args = [];
  seed = none;
  node_info = none;
}

plan-Served_example :
    Served all "admin" (selected_profiles mixed) (plan mixed)
    × All (λ (inv : Invocation). inv.override_withheld ≡ is_none inv.ssh_user) (plan mixed)
plan-Served_example = plan-Served mixed "admin" refl

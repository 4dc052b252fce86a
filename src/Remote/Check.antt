-- ===== src/Remote/Check.antt =====
-- crates/deptui-core/src/host.rs: is a profile of a host up to date?
use deptui.Prelude.{
  ℕ, ◌<◌, String, Bool, true, false, not, Option, none, some, List, [], ◌∷◌, ◌==◌, ltb,
  if◌then◌else◌, unwrap_or, and_then,
}
use Prim.Native.Char.{code}
use deptui.Prelude.Text.{concat, trim, lines, is_empty}
use deptui.Prelude.Strip.{basename, trim_end_matches, first_or}
use deptui.Prelude.Result.{Result, ok, err, with_context}
use deptui.Config.{parse_u64, is_digit}
use deptui.Ssh.{SshOverride}
use deptui.Flake.{Node}
use deptui.Deploy.{AskpassEnv}
use deptui.Effects.{Output, Env, Act, pure, lift, attempt, look, map_result, output, ◌>>=◌}
use deptui.Remote.{build_ssh_target, ssh_capture, split_name_version, parsed_paths_equivalent}

pub record ProfileCheck : Type 0 where
  pub up_to_date : Bool
  pub not_deployed : Bool
  pub local_path : String
  pub remote_path : String
  -- seconds since the epoch
  pub activation_time : Option ℕ

unfoldable pub check_command : String → Result String
check_command profile =
    if profile == "system"
    then ok "readlink -f /run/current-system && stat -c %Y /run/current-system"
    else if profile == "home"
    then ok (
        concat (
          "if [ -L ~/.local/state/nix/profiles/home-manager ]; then "
          ∷ "link=~/.local/state/nix/profiles/home-manager; elif [ -L ~/.nix-profile ]; then "
          ∷ "link=~/.nix-profile; else printf 'NOT_DEPLOYED\\n'; exit 0; fi; "
          ∷ "readlink -f \"$link\" && stat -c %Y \"$link\"" ∷ []))
    else err (concat ("unknown profile `" ∷ profile ∷ "`" ∷ []))

-- The first reference with the remote toplevel's name.
unfoldable pub find_reference : String → List String → Option String
unfolding trim basename split_name_version
find_reference name [] = none
find_reference name (l ∷ rest) =
    let p = trim l in
    let later = find_reference name rest in
    if is_empty p
    then later
    else if (split_name_version (basename p)).0 == name
    then some p
    else later

-- The digits of a text that is digits alone; `parse` refuses any other, but a leading `+`.
digit_codes : String → Option (List ℕ)
digit_codes String.[] = some []
digit_codes (String.◌∷◌ c s) =
    let rest = digit_codes s in
    if is_digit (code c) then and_then rest (λ ds. some (code c ∷ ds)) else none

without_plus : String → String
without_plus String.[] = ""
without_plus (String.◌∷◌ c s) =
    if deptui.Prelude.same_number (code c) b'+' then s else String.◌∷◌ c s

-- `str::parse::<u64>()`.
unfoldable pub parse_text_u64 : String → Option ℕ
unfolding digit_codes without_plus parse_u64
parse_text_u64 s = and_then (digit_codes (without_plus s)) parse_u64

-- The second line as a time, unless it is one that Nix froze.
unfoldable pub activation : List String → Option ℕ
unfolding parse_text_u64 trim
activation (_ ∷ second ∷ _) =
    and_then (parse_text_u64 (trim second)) λ secs. if ltb 1262304000 secs then some secs else none
activation _ = none

-- What the check says when the host prints `remote` and the wrapper resolves to `resolved`.
unfoldable pub judge : String → String → Option ℕ → Option String → ProfileCheck
unfolding parsed_paths_equivalent
judge local remote time resolved = record {
  up_to_date = elim resolved [
    | some toplevel ↦ toplevel == remote
    | none ↦ parsed_paths_equivalent local remote
  ];
  not_deployed = false;
  local_path = unwrap_or resolved local;
  remote_path = remote;
  activation_time = time;
}

abbrev pub never_deployed : String → ProfileCheck
never_deployed local = record {
  up_to_date = false;
  not_deployed = true;
  local_path = local;
  remote_path = "";
  activation_time = none;
}

module _ (env : Env) where
  unfoldable pub local_profile_path : String → String → String → Act String
  unfolding trim_end_matches ◌>>=◌ map_result output
  local_profile_path flake node profile = do
    out ← map_result (with_context "spawning `nix eval --raw`") (
        output env (record {
          program = "nix";
          args =
              "eval"
              ∷ "--raw"
              ∷ "--no-warn-dirty"
              ∷ concat (flake ∷ "#deploy.nodes." ∷ node ∷ ".profiles." ∷ profile ∷ ".path" ∷ [])
              ∷ [];
          dir = none;
          vars = [];
        }))
    lift (
        if out.success
        then ok (trim_end_matches "/activate" out.stdout)
        else err (concat ("nix eval failed: " ∷ out.stderr ∷ [])))

  references : String → Result Output → Option String
  references name (err e) = none
  references name (ok out) = if out.success then find_reference name (lines out.stdout) else none

  -- Every failure is `none`, and the caller falls back.
  unfoldable pub resolve_local_toplevel_quiet : String → String → Act (Option String)
  unfolding references find_reference lines basename split_name_version attempt look output ◌>>=◌
  resolve_local_toplevel_quiet wrapper remote = do
    let name = (split_name_version (basename remote)).0
    if is_empty name then pure none else do
      there ← look λ calls. env.exists calls wrapper
      if not there then pure none else do
        r ← attempt (
            output env (record {
              program = "nix-store";
              args = "--query" ∷ "--references" ∷ wrapper ∷ [];
              dir = none;
              vars = [];
            }))
        pure (references name r)

  unfoldable pub check_profile_up_to_date :
      String → Node → String → SshOverride → AskpassEnv → Act ProfileCheck
  unfolding check_command local_profile_path build_ssh_target ssh_capture activation judge
      resolve_local_toplevel_quiet ◌>>=◌ map_result first_or trim lines
  check_profile_up_to_date flake node profile override askpass = do
    local ←
        map_result
          (with_context (concat ("evaluating local path for " ∷ node.name ∷ "." ∷ profile ∷ [])))
          (local_profile_path flake node.name profile)
    command ← lift (check_command profile)
    remote ← ssh_capture env (build_ssh_target node profile override) command override askpass
    let first = trim (first_or "" (lines remote))
    if first == "NOT_DEPLOYED" then pure (never_deployed (trim local)) else do
      resolved ← resolve_local_toplevel_quiet (trim local) first
      pure (judge (trim local) first (activation (lines remote)) resolved)

-- ===== src/Remote.antt =====
-- crates/deptui-core/src/host.rs: what a host runs, by ssh and by the local store.
pub mod Check
pub mod Status
use Prim.Native.Nat.{min}
use Prim.Native.Char.{code}
use Prim.Native.String
use Prim.Native.String.{len}
use deptui.Prelude.{
  ℕ, String, Bool, true, false, ◌&&◌, ◌||◌, not, Option, none, some, List, [], ◌∷◌, ◌++◌, ◌==◌, leb,
  if◌then◌else◌, or_else, and_then,
}
use deptui.Prelude.Text.{concat, trim, lines, is_empty}
use deptui.Prelude.Strip.{strip_suffix, basename, before, after, first_or}
use deptui.Prelude.Map.{get}
use deptui.Prelude.Result.{Result, ok, err, with_context}
use deptui.Ssh.{SshOverride, effective_host, effective_user, ssh_args}
use deptui.Flake.{Node}
use deptui.Deploy.{AskpassEnv}
use deptui.Effects.{Process, Env, Act, pure, fail, lift, map_result, output, ◌>>=◌, ◌>>◌}

unfoldable pub build_ssh_target : Node → String → SshOverride → String
unfolding effective_host effective_user
build_ssh_target node profile override =
    let host = effective_host override node.hostname in
    let home_user = and_then (get "home" node.profiles) (λ p. p.user) in
    let fallback = if profile == "home" then or_else home_user node.ssh_user else node.ssh_user in
    elim (effective_user override fallback) [
      | none ↦ host
      | some user ↦ concat (user ∷ "@" ∷ host ∷ [])
    ]

unfoldable pub ssh_process : String → String → SshOverride → AskpassEnv → Process
unfolding ssh_args
ssh_process target command override askpass = record {
  program = "ssh";
  args =
      "-o"
      ∷ "ConnectTimeout=3"
      ∷ "-o"
      ∷ "StrictHostKeyChecking=accept-new"
      ∷ (ssh_args override ++ target ∷ command ∷ []);
  dir = none;
  vars =
      ("SSH_ASKPASS", askpass.script_path)
      ∷ ("SSH_ASKPASS_REQUIRE", "prefer")
      ∷ ("DISPLAY", "deptui")
      ∷ ("DEPTUI_ASKPASS_SOCK", askpass.socket_path)
      ∷ [];
}

-- What follows the store hash.
after_hash : String → Option String
after_hash basename = after b'-' basename

is_digit_first : String → Bool
is_digit_first String.[] = false
is_digit_first (String.◌∷◌ c s) = leb 48 (code c) && leb (code c) 57

-- The name and version on either side of the first dash that a digit follows.
unfoldable pub split_version : String → String × String
unfolding is_digit_first
split_version String.[] = ("", "")
split_version (String.◌∷◌ c s) =
    let (name, version) = split_version s in
    if deptui.Prelude.same_number (code c) b'-' && is_digit_first s
    then ("", s)
    else (String.◌∷◌ c name, version)

-- The deploy-rs suffix of a version goes back onto the name.
unfoldable pub peel_version : String × String → String × String
unfolding strip_suffix
peel_version (name, version) = elim (strip_suffix "-activate-path" version) [
  | some v ↦ (concat (name ∷ "-activate-path" ∷ []), v)
  | none ↦ elim (strip_suffix "-activate-rs" version) [
    | some v ↦ (concat (name ∷ "-activate-rs" ∷ []), v)
    | none ↦ (name, version)
  ]
]

unfoldable pub split_name_version : String → String × String
unfolding after_hash after split_version peel_version
split_name_version base = elim (after_hash base) [
  | none ↦ (base, "")
  | some rest ↦ peel_version (split_version rest)
]

unfoldable pub peel_name : String → String
unfolding strip_suffix
peel_name name = elim (strip_suffix "-activate-path" name) [
  | some n ↦ n
  | none ↦ elim (strip_suffix "-activate-rs" name) [ some n ↦ n | none ↦ name ]
]

unfoldable pub parsed_paths_equivalent : String → String → Bool
unfolding basename split_name_version peel_name
parsed_paths_equivalent local_path remote_path =
    let (local_name, local_version) = split_name_version (basename local_path) in
    let (remote_name, remote_version) = split_name_version (basename remote_path) in
    let name = peel_name local_name in
    not (is_empty name)
    && not (is_empty local_version)
    && name == remote_name
    && local_version == remote_version

unfoldable pub read_command : String → Result String
read_command profile =
    if profile == "system"
    then ok "readlink -f /run/current-system"
    else if profile == "home"
    then ok (
        concat (
          "if [ -L ~/.local/state/nix/profiles/home-manager ]; then readlink -f "
          ∷ "~/.local/state/nix/profiles/home-manager; elif [ -L ~/.nix-profile ]; then readlink -f "
          ∷ "~/.nix-profile; else printf 'NOT_DEPLOYED\\n'; fi" ∷ []))
    else err (concat ("unknown profile `" ∷ profile ∷ "`" ∷ []))

-- The path on the first line, if the host printed one.
unfoldable pub printed_path : String → Option String
unfolding trim lines first_or
printed_path out =
    let first = trim (first_or "" (lines out)) in
    if is_empty first || first == "NOT_DEPLOYED" then none else some first

is_hex : String → Bool
is_hex String.[] = true
is_hex (String.◌∷◌ c s) =
    (leb 48 (code c) && leb (code c) 57
      || leb 65 (code c) && leb (code c) 70
      || leb 97 (code c) && leb (code c) 102)
    && is_hex s

-- A plain commit hash, of seven hexadecimal digits at least.
unfoldable pub plain_hash : String → Option String
unfolding is_hex
plain_hash rev = if leb 7 (len rev) && is_hex rev then some rev else none

module _ (env : Env) where
  unfoldable pub ssh_capture : String → String → SshOverride → AskpassEnv → Act String
  unfolding ssh_process trim ◌>>=◌ map_result output
  ssh_capture target command override askpass = do
    out ←
        map_result (with_context "spawning ssh")
          (output env (ssh_process target command override askpass))
    lift (
        if out.success
        then ok out.stdout
        else err (concat ("ssh `" ∷ command ∷ "` failed: " ∷ trim out.stderr ∷ [])))

  unfoldable pub read_remote_profile_path :
      Node → String → SshOverride → AskpassEnv → Act (Option String)
  unfolding read_command build_ssh_target ssh_capture printed_path ◌>>=◌
  read_remote_profile_path node profile override askpass = do
    command ← lift (read_command profile)
    out ← ssh_capture (build_ssh_target node profile override) command override askpass
    pure (printed_path out)

  -- A text that is no JSON, a field that is absent or no text, and a value that is no plain hash
  -- are all `none`: `parse_revision` answers `none` for the first three.
  unfoldable pub read_remote_configuration_rev :
      Node → SshOverride → AskpassEnv → Act (Option String)
  unfolding build_ssh_target ssh_capture plain_hash ◌>>=◌
  read_remote_configuration_rev node override askpass = do
    out ←
        ssh_capture (build_ssh_target node "system" override) "nixos-version --json" override
          askpass
    pure (and_then (env.parse_revision (trim out)) plain_hash)

-- ===== src/Remote/Status.antt =====
-- crates/deptui-core/src/host.rs: what the checks found out about a host, and the lines they log.
use deptui.Prelude.{
  ℕ, String, Bool, true, false, ◌||◌, not, Option, none, some, List, [], ◌∷◌, ◌++◌, length,
  filter_by, unwrap_or,
}
use deptui.Prelude.Text.{concat, decimal}
use deptui.Prelude.Map.{Map, get, insert}

pub data Reachability : Type 0 where
  unknown online offline : Reachability

pub data UpdateState : Type 0 where
  unknown up_to_date needs_update not_deployed error : UpdateState

pub data PkgChange : Type 0 where
  updated : String → String → String → PkgChange
  added : String → String → PkgChange
  removed : String → String → PkgChange
  content_only : ℕ → PkgChange
  sample_added : String → PkgChange
  sample_removed : String → PkgChange
  more : ℕ → PkgChange

pub data LogKind : Type 0 where
  plain note run_start : LogKind
  size_local size_remote pkg_done : ℕ → LogKind
  pkg : PkgChange → LogKind

unfoldable pub render : PkgChange → String
unfolding decimal
render (updated name from to) = concat (name ∷ ": " ∷ from ∷ " → " ∷ to ∷ [])
render (added name versions) = concat (name ∷ ": + " ∷ versions ∷ [])
render (removed name versions) = concat (name ∷ ": - " ∷ versions ∷ [])
render (content_only count) = concat (
    "(content-only) "
    ∷ decimal count
    ∷ " path(s) differ — same package versions, different contents"
    ∷ [])
render (sample_added base) = concat ("  + " ∷ base ∷ [])
render (sample_removed base) = concat ("  - " ∷ base ∷ [])
render (more count) = concat ("  … and " ∷ decimal count ∷ " more path(s)" ∷ [])

pub record PkgDiff : Type 0 where
  pub changes : List PkgChange

pub is_identical : PkgDiff → Bool
is_identical d = elim d.changes [ [] ↦ true | _ ∷ _ ↦ false ]

abbrev is_content : PkgChange → Bool
is_content (content_only count) = true
is_content _ = false

unfoldable pub is_content_only : PkgDiff → Bool
is_content_only d = elim d.changes [ [] ↦ false | c ∷ _ ↦ is_content c ]

abbrev is_version_change : PkgChange → Bool
is_version_change (updated name from to) = true
is_version_change (added name versions) = true
is_version_change (removed name versions) = true
is_version_change _ = false

unfoldable pub change_count : PkgDiff → ℕ
change_count d = length (filter_by is_version_change d.changes)

pub record ProgressLine : Type 0 where
  pub text : String
  pub kind : LogKind

unfoldable pub note_line : String → ProgressLine
note_line text = record { text = text; kind = note }

unfoldable pub size_local_line : ℕ → ProgressLine
unfolding decimal
size_local_line bytes = record {
  text = concat ("[size] local: " ∷ decimal bytes ∷ " bytes" ∷ []);
  kind = size_local bytes;
}

unfoldable pub size_remote_line : ℕ → ProgressLine
unfolding decimal
size_remote_line bytes = record {
  text = concat ("[size] remote: " ∷ decimal bytes ∷ " bytes" ∷ []);
  kind = size_remote bytes;
}

unfoldable pub pkg_line : PkgChange → ProgressLine
unfolding render
pkg_line change = record { text = concat ("[pkg] " ∷ render change ∷ []); kind = pkg change }

unfoldable pub pkg_done_line : ℕ → ProgressLine
unfolding decimal
pkg_done_line count = record {
  text = concat ("[pkg] done (" ∷ decimal count ∷ " change(s))" ∷ []);
  kind = pkg_done count;
}

pub data BuildSite : Type 0 where
  local remote : BuildSite

unfoldable pub site_label : BuildSite → String
site_label local = "local"
site_label remote = "remote"

pub record SubstituterDrift : Type 0 where
  pub site : BuildSite
  pub added_substituters : List String
  pub added_keys : List String
  pub removed_substituters : List String
  pub ssh_user : Option String
  pub ssh_user_trusted : Option Bool

abbrev is_nil : List String → Bool
is_nil [] = true
is_nil (_ ∷ _) = false

unfoldable pub has_drift : SubstituterDrift → Bool
has_drift d = not (is_nil d.added_substituters) || not (is_nil d.added_keys)

pub record BuildPlan : Type 0 where
  pub to_build : List String
  pub to_fetch : List String
  pub build_outputs : List String
  pub download_bytes : Option ℕ
  pub unpacked_bytes : Option ℕ
  pub nothing_to_do : Bool

unfoldable pub builds_anything : BuildPlan → Bool
builds_anything p = not (is_nil p.to_build)

unfoldable pub seedable_paths : BuildPlan → List String
seedable_paths p = p.build_outputs ++ p.to_fetch

-- The times are those of the clock that the program reads.
pub record ProfileExtra : Type 0 where
  pub local_path : Option String
  pub remote_path : Option String
  pub activation_time : Option ℕ
  pub local_size : Option ℕ
  pub remote_size : Option ℕ
  pub checking_size : Bool
  pub pkg_diff : Option PkgDiff
  pub checking_pkg : Bool

abbrev pub no_extra : ProfileExtra
no_extra = record {
  local_path = none;
  remote_path = none;
  activation_time = none;
  local_size = none;
  remote_size = none;
  checking_size = false;
  pkg_diff = none;
  checking_pkg = false;
}

pub record ProfileStatus : Type 0 where
  pub update : UpdateState
  pub checking : Bool
  pub extra : ProfileExtra
  pub build_plan : Option BuildPlan

abbrev pub never_probed : ProfileStatus
never_probed = record {
  update = UpdateState.unknown;
  checking = false;
  extra = no_extra;
  build_plan = none;
}

pub record HostStatus : Type 0 where
  pub reachability : Reachability
  pub checking_reachability : Bool
  pub last_online : Option ℕ
  pub last_error : Option String
  pub profiles : Map ProfileStatus
  pub cache_drift : Option SubstituterDrift
  pub checking_cache : Bool
  pub checking_plan : Bool

abbrev pub new_status : HostStatus
new_status = record {
  reachability = Reachability.unknown;
  checking_reachability = false;
  last_online = none;
  last_error = none;
  profiles = [];
  cache_drift = none;
  checking_cache = false;
  checking_plan = false;
}

unfoldable pub profile_of : HostStatus → String → ProfileStatus
unfolding get
profile_of s name = unwrap_or (get name s.profiles) never_probed

-- `profile_mut` and the change that is made through it.
unfoldable pub with_profile : String → (ProfileStatus → ProfileStatus) → HostStatus → HostStatus
unfolding get insert
with_profile name f s = record s {
  profiles = insert name (f (unwrap_or (get name s.profiles) never_probed)) s.profiles;
}

plans_in : Map ProfileStatus → List (String × BuildPlan)
plans_in [] = []
plans_in ((name, p) ∷ rest) = elim p.build_plan [
  | none ↦ plans_in rest
  | some plan ↦ (name, plan) ∷ plans_in rest
]

unfoldable pub build_plans : HostStatus → List (String × BuildPlan)
unfolding plans_in
build_plans s = plans_in s.profiles

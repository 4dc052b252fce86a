-- ===== src/Config.antt =====
-- crates/deptui-agent/src/config.rs: the agent's configuration and what a load validates.
pub mod Validate
pub mod Durations
pub mod Accepted
use Prim.Native.Char.{code}
use Prim.Native.String
use deptui.Prelude.{
  ℕ, ◌+◌, ◌-◌, ◌*◌, ◌%◌, ◌^◌, String, Bool, true, false, ◌&&◌, ◌||◌, not, Option, none, some, List,
  [], ◌∷◌, ◌++◌, ◌==◌, ltb, leb, same_number, if◌then◌else◌, unwrap_or, is_some, any_by, length,
}
use deptui.Prelude.Text.{concat, trim, member, is_empty, split_whitespace}
use deptui.Prelude.Map.{Map}
use deptui.Prelude.Result.{Result, ok, err, try_result, with_context}
use deptui.Ssh.{SshOverride, no_override}
use deptui.Deploy.{Mode, switch, boot, ProfileSel, all, system, home, Toggles, default_toggles}

pub record ListenConfig : Type 0 where
  pub addr : String
  pub token_file : String

pub record NotifyConfig : Type 0 where
  pub on_failure : Option String
  pub url : Option String
  pub kind : Option String
  pub token_file : Option String
  pub events : List String

pub data WebhookKind : Type 0 where
  ntfy json : WebhookKind

unfoldable pub webhook_kind : NotifyConfig → WebhookKind
webhook_kind n = elim n.kind [ none ↦ json | some k ↦ if k == "ntfy" then ntfy else json ]

unfoldable pub wants_event : NotifyConfig → String → Bool
wants_event n kind =
    if kind == "failure" || kind == "unreachable" || kind == "held"
    then true
    else any_by (λ e. e == kind) n.events

pub record SshConfig : Type 0 where
  pub hostname : Option String
  pub user : Option String
  pub identity : Option String
  pub extra_opts : Option String

pub record HostConfig : Type 0 where
  pub profile : Option String
  pub mode : Option String
  pub skip_checks : Option Bool
  pub magic_rollback : Option Bool
  pub auto_rollback : Option Bool
  pub remote_build : Option Bool
  pub interactive_sudo : Option Bool
  pub bootstrap : Option String
  pub catch_up : Option Bool
  pub drift_guard : Option Bool
  pub extra_build_args : List String
  pub ssh : Option SshConfig

pub record WatchConfig : Type 0 where
  pub name : String
  pub repo : String
  pub branch : Option String
  pub tag : Option String
  pub interval : Option String
  pub cron : Option String
  pub offline_recheck : Option String
  pub git_crypt_key_file : Option String
  pub post_checkout : Option String
  pub hosts : Map HostConfig

pub record AgentConfig : Type 0 where
  pub socket : String
  pub state_dir : String
  pub listen : Option ListenConfig
  pub notify : NotifyConfig
  pub watches : List WatchConfig
  pub source_path : Option String

unfoldable pub profile_sel : HostConfig → Result ProfileSel
profile_sel h = elim h.profile [
  | none ↦ ok all
  | some p ↦
      if p == "all"
      then ok all
      else if p == "system"
      then ok system
      else if p == "home"
      then ok home
      else err (concat ("unknown profile `" ∷ p ∷ "` (expected all/system/home)" ∷ []))
]

unfoldable pub deploy_mode : HostConfig → Result Mode
deploy_mode h = elim h.mode [
  | none ↦ ok switch
  | some m ↦
      if m == "switch"
      then ok switch
      else if m == "boot"
      then ok boot
      else err (concat ("unknown mode `" ∷ m ∷ "` (expected switch/boot)" ∷ []))
]

unfoldable pub host_toggles : HostConfig → Toggles
host_toggles h = record {
  skip_checks = unwrap_or h.skip_checks default_toggles.skip_checks;
  magic_rollback = unwrap_or h.magic_rollback default_toggles.magic_rollback;
  auto_rollback = unwrap_or h.auto_rollback default_toggles.auto_rollback;
  remote_build = unwrap_or h.remote_build default_toggles.remote_build;
  interactive_sudo = default_toggles.interactive_sudo;
}

unfoldable pub bootstrap_deploys : HostConfig → Bool
bootstrap_deploys h = elim h.bootstrap [ none ↦ false | some b ↦ b == "deploy" ]

unfoldable pub catch_up : HostConfig → Bool
catch_up h = unwrap_or h.catch_up true

unfoldable pub drift_guard : HostConfig → Bool
drift_guard h = unwrap_or h.drift_guard true

unfoldable pub ssh_override : HostConfig → SshOverride
ssh_override h = elim h.ssh [
  | none ↦ no_override
  | some s ↦ record {
    hostname = s.hostname;
    user = s.user;
    identity = s.identity;
    extra_opts = s.extra_opts;
  }
]

-- The poll cadence of a watch: every so many seconds, or by a cron expression that was parsed.
pub data Cadence : Type 0 where
  every : ℕ → Cadence
  cron : String → Cadence

-- `none` is the panic of `unreachable!`; `validate` rules it out.
unfoldable pub refspec : WatchConfig → Option String
refspec w = elim w.branch [
  | some b ↦ some (concat ("refs/heads/" ∷ b ∷ []))
  | none ↦ elim w.tag [ some t ↦ some (concat ("refs/tags/" ∷ t ∷ [])) | none ↦ none ]
]

unfoldable pub ref_label : WatchConfig → Option String
ref_label w = elim w.branch [
  | some b ↦ some (concat ("branch " ∷ b ∷ []))
  | none ↦ elim w.tag [ some t ↦ some (concat ("tag " ∷ t ∷ [])) | none ↦ none ]
]

abbrev pub u64_mod : ℕ
u64_mod = 2 ^ 64

abbrev pub is_digit : ℕ → Bool
is_digit c = leb 48 c && leb c 57

digits_value : ℕ → List ℕ → ℕ
digits_value n [] = n
digits_value n (c ∷ rest) = digits_value (n * 10 + (c - 48)) rest

-- `parse::<u64>()` on ASCII digits: none of them, or a value past `u64::MAX`, is an error.
unfoldable pub parse_u64 : List ℕ → Option ℕ
unfolding digits_value
parse_u64 [] = none
parse_u64 (c ∷ rest) = let n = digits_value 0 (c ∷ rest) in if ltb n u64_mod then some n else none

-- Seconds in a unit, by its letter.
unfoldable pub unit_seconds : ℕ → Option ℕ
unit_seconds c =
    if same_number c b's'
    then some 1
    else if same_number c b'm'
    then some 60
    else if same_number c b'h'
    then some 3600
    else if same_number c b'd'
    then some 86400
    else none

pub record Scan : Type 0 where
  pub total : ℕ
  pub num : List ℕ
  pub saw_unit : Bool

abbrev pub bad_duration : String → String → String
bad_duration s hint = concat ("invalid duration `" ∷ s ∷ "`" ∷ hint ∷ [])

-- One character of the loop. The additions are those of `u64`, which wrap in a release build.
unfoldable pub scan_char : String → ℕ → Scan → Result Scan
unfolding parse_u64 unit_seconds
scan_char s c t =
    if is_digit c then ok (record t { num = t.num ++ c ∷ [] }) else elim (parse_u64 t.num) [
      | none ↦ err (bad_duration s "")
      | some n ↦ elim (unit_seconds c) [
        | none ↦ err (bad_duration s " (units: s/m/h/d)")
        | some unit ↦ ok (record {
          total = (t.total + (n * unit) % u64_mod) % u64_mod;
          num = [];
          saw_unit = true;
        })
      ]
    ]

unfoldable pub scan_text : String → String → Scan → Result Scan
unfolding scan_char
scan_text s String.[] t = ok t
scan_text s (String.◌∷◌ c rest) t = elim (scan_char s (code c) t) [
  | err e ↦ err e
  | ok t' ↦ scan_text s rest t'
]

unfoldable pub finish_scan : String → Scan → Result ℕ
finish_scan s t =
    if not (same_number (length t.num) 0) || not t.saw_unit
    then err (bad_duration s " (expected e.g. \"15m\", \"1h30m\")")
    else if same_number t.total 0
    then err (concat ("duration `" ∷ s ∷ "` must be non-zero" ∷ []))
    else ok t.total

unfoldable pub parse_duration : String → Result ℕ
unfolding scan_text finish_scan trim
parse_duration s =
    try_result (scan_text s (trim s) (record { total = 0; num = []; saw_unit = false }))
      (finish_scan s)

unfoldable pub recheck_interval : WatchConfig → Result ℕ
unfolding parse_duration
recheck_interval w = elim w.offline_recheck [
  | none ↦ ok 120
  | some s ↦
      with_context (concat ("watch `" ∷ w.name ∷ "`: offline_recheck" ∷ [])) (parse_duration s)
]

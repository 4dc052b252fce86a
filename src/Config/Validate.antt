-- ===== src/Config/Validate.antt =====
-- crates/deptui-agent/src/config.rs: `cadence`, `validate` and `load`. The `cron` crate and the TOML
-- parser are parameters.
use Prim.Native.Char.{code}
use deptui.Prelude.{
  ℕ, String, Bool, true, false, ◌&&◌, ◌||◌, not, Option, none, some, List, [], ◌∷◌, ◌==◌, leb,
  same_number, if◌then◌else◌, is_some, length,
}
use deptui.Prelude.Text.{concat, member, is_empty, split_whitespace}
use deptui.Prelude.Map.{Map}
use deptui.Prelude.Result.{Result, ok, err, try_result, with_context}
use deptui.Config.{
  NotifyConfig, HostConfig, WatchConfig, AgentConfig, Cadence, every, cron, profile_sel,
  deploy_mode, parse_duration, recheck_interval,
}

abbrev pub in_watch : WatchConfig → String → String
in_watch w text = concat ("watch `" ∷ w.name ∷ "`" ∷ text ∷ [])

abbrev pub in_host : WatchConfig → String → String → String
in_host w host text = concat ("watch `" ∷ w.name ∷ "` host `" ∷ host ∷ "`" ∷ text ∷ [])

-- A five-field crontab line gets the seconds column that the `cron` crate requires.
unfoldable pub pad_cron : String → String
unfolding split_whitespace
pad_cron c = if same_number (length (split_whitespace c)) 5 then concat ("0 " ∷ c ∷ []) else c

-- ASCII letters and digits, `-` and `_`.
unfoldable pub is_name_char : ℕ → Bool
is_name_char c =
    (leb 48 c && leb c 57)
    || (leb 65 c && leb c 90)
    || (leb 97 c && leb c 122)
    || same_number c 45
    || same_number c 95

unfoldable pub all_name_chars : String → Bool
unfolding is_name_char
all_name_chars String.[] = true
all_name_chars (String.◌∷◌ c s) = is_name_char (code c) && all_name_chars s

unfoldable pub guard : Bool → String → Result (Unit {0})
guard true e = ok tt
guard false e = err e

unfoldable pub check_bootstrap : WatchConfig → String → Option String → Result (Unit {0})
unfolding guard
check_bootstrap w host none = ok tt
check_bootstrap w host (some b) =
    guard (b == "hold" || b == "deploy")
      (in_host w host (concat (": bootstrap must be \"hold\" or \"deploy\", got `" ∷ b ∷ "`" ∷ [])))

abbrev pub headless : String
headless = concat (
    ": `interactive_sudo` is not available in the agent — it is headless, there is nobody to "
    ∷ "type a sudo password. Targets must accept non-interactive activation (root deploy user or "
    ∷ "NOPASSWD sudo)" ∷ [])

unfoldable pub validate_host : WatchConfig → String → HostConfig → Result (Unit {0})
unfolding profile_sel deploy_mode guard check_bootstrap
validate_host w host hc = try_result (with_context (in_host w host "") (profile_sel hc)) λ p.
    try_result (with_context (in_host w host "") (deploy_mode hc)) λ m.
      try_result (check_bootstrap w host hc.bootstrap)
        λ u. guard (not (is_some hc.interactive_sudo)) (in_host w host headless)

unfoldable pub validate_hosts : WatchConfig → Map HostConfig → Result (Unit {0})
unfolding validate_host
validate_hosts w [] = ok tt
validate_hosts w ((host, hc) ∷ rest) =
    try_result (validate_host w host hc) λ u. validate_hosts w rest

unfoldable pub validate_events : List String → Result (Unit {0})
unfolding guard
validate_events [] = ok tt
validate_events (e ∷ rest) =
    try_result
      (guard (e == "start" || e == "success" || e == "failure")
        (concat ("notify.events entries must be start/success/failure, got `" ∷ e ∷ "`" ∷ [])))
      λ u. validate_events rest

unfoldable pub validate_kind : Option String → Result (Unit {0})
unfolding guard
validate_kind none = ok tt
validate_kind (some k) =
    guard (k == "ntfy" || k == "json")
      (concat ("notify.kind must be \"ntfy\" or \"json\", got `" ∷ k ∷ "`" ∷ []))

unfoldable pub validate_notify : NotifyConfig → Result (Unit {0})
unfolding validate_kind validate_events
validate_notify n = try_result (validate_kind n.kind) λ u. validate_events n.events

-- `parse_cron` is `cron::Schedule::from_str`, as far as it accepts.
module _ (parse_cron : String → Result (Unit {0})) where
  unfoldable pub cadence : WatchConfig → Result Cadence
  unfolding pad_cron parse_duration
  cadence w = elim w.interval [
    | some i ↦ elim w.cron [
      | some c ↦ err (in_watch w ": `interval` and `cron` are mutually exclusive")
      | none ↦ try_result (parse_duration i) λ d. ok (every d)
    ]
    | none ↦ elim w.cron [
      | some c ↦
          try_result
            (with_context (in_watch w (concat (": invalid cron `" ∷ c ∷ "`" ∷ [])))
              (parse_cron (pad_cron c)))
            λ u. ok (cron (pad_cron c))
      | none ↦ err (in_watch w ": one of `interval` or `cron` is required")
    ]
  ]

  -- One round of the loop over the watches; `seen` are the names of those before it.
  unfoldable pub validate_watch : List String → WatchConfig → Result (Unit {0})
  unfolding guard all_name_chars cadence recheck_interval validate_hosts
  validate_watch seen w =
      try_result
        (guard (not (is_empty w.name) && all_name_chars w.name)
          (concat ("watch name `" ∷ w.name ∷ "` must be non-empty [A-Za-z0-9_-]" ∷ [])))
        λ a.
          try_result
            (guard (not (member w.name seen))
              (concat ("duplicate watch name `" ∷ w.name ∷ "`" ∷ [])))
            λ b.
              try_result
                (guard
                  (is_some w.branch && not (is_some w.tag)
                    || not (is_some w.branch) && is_some w.tag)
                  (in_watch w ": exactly one of `branch` or `tag` is required"))
                λ c. try_result (cadence w) λ d. try_result (recheck_interval w) λ e.
                  try_result
                    (guard (not (same_number (length w.hosts) 0))
                      (in_watch w " has no hosts configured"))
                    λ f. validate_hosts w w.hosts

  unfoldable pub validate_watches : List String → List WatchConfig → Result (Unit {0})
  unfolding validate_watch
  validate_watches seen [] = ok tt
  validate_watches seen (w ∷ rest) =
      try_result (validate_watch seen w) λ u. validate_watches (w.name ∷ seen) rest

  unfoldable pub validate : AgentConfig → Result (Unit {0})
  unfolding validate_watches validate_notify
  validate cfg = try_result (validate_watches [] cfg.watches) λ u. validate_notify cfg.notify

  -- `read` is the file's text or the error of reading it; `parse_toml` is `toml::from_str`.
  unfoldable pub load : (String → Result AgentConfig) → String → Result String → Result AgentConfig
  unfolding validate
  load parse_toml path read =
      try_result (with_context (concat ("reading agent config " ∷ path ∷ [])) read) λ text.
        try_result (with_context (concat ("parsing agent config " ∷ path ∷ [])) (parse_toml text))
          λ parsed.
            let cfg = record parsed { source_path = some path } in
            try_result (validate cfg) λ u. ok cfg

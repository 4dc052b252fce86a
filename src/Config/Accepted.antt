-- ===== src/Config/Accepted.antt =====
-- crates/deptui-agent/src/config.rs: what a configuration that `validate` accepts is good for.
use deptui.Prelude.{
  String, ◌≡◌, refl, sym, ◌∙◌, Bool, true, false, ◌&&◌, ◌||◌, not, List, [], ◌∷◌, arith, is_some,
  All, length, same_number,
}
use deptui.Prelude.Text.{member, is_empty}
use deptui.Prelude.Map.{Map}
use deptui.Prelude.Result.{Result, ok, err, try_result, with_context}
use deptui.Config.{
  HostConfig, WatchConfig, AgentConfig, profile_sel, deploy_mode, refspec, ref_label,
  recheck_interval,
}
use deptui.Config.Validate
use deptui.Config.Validate.{
  guard, in_host, in_watch, headless, all_name_chars, check_bootstrap, validate_host,
  validate_hosts, validate_events, validate_kind, validate_notify, cadence, validate_watch,
  validate_watches, validate,
}

abbrev pub accepted : {A : Type 0} → Result A → Bool
accepted (ok a) = true
accepted (err e) = false

module _ {A B : Type 0} where
  accepted_first :
      (r : Result A) (f : A → Result B) → accepted (try_result r f) ≡ true → accepted r ≡ true
  accepted_first (ok a) f h = refl
  accepted_first (err e) f h = cc

  -- Where the rest does not look at the value.
  accepted_rest :
      (r : Result A) (n : Result B) → accepted (try_result r λ a. n) ≡ true → accepted n ≡ true
  accepted_rest (ok a) n h = h
  accepted_rest (err e) n h = cc

accepted_context :
    {A : Type 0} → (c : String) (r : Result A) → accepted (with_context c r) ≡ accepted r
accepted_context c (ok a) = refl
accepted_context c (err e) = refl

accepted-guard : (b : Bool) (e : String) → accepted (guard b e) ≡ b
unfolding guard
accepted-guard true e = refl
accepted-guard false e = refl

accepted_guarded : (b : Bool) (e : String) → accepted (guard b e) ≡ true → b ≡ true
accepted_guarded b e h = sym (accepted-guard b e) ∙ h

module _ {B : Type 0} where
  accepted_both :
      {A : Type 0}
      → (r : Result A) (n : Result B) → accepted (try_result r λ a. n) ≡ true
      → (accepted r ≡ true) × (accepted n ≡ true)
  accepted_both r n h = (accepted_first r (λ a. n) h, accepted_rest r n h)

  accepted_test :
      (b : Bool) (e : String) (n : Result B)
      → accepted (try_result (guard b e) λ a. n) ≡ true
      → (b ≡ true) × (accepted n ≡ true)
  accepted_test b e n h =
      let (g, rest) = accepted_both (guard b e) n h in (accepted_guarded b e g, rest)

-- A host's configuration that a run can use: its profiles and its mode are known, and nothing waits for
-- a password.
pub record ValidHost (hc : HostConfig) : Type 0 where
  pub profile : accepted (profile_sel hc) ≡ true
  pub mode : accepted (deploy_mode hc) ≡ true
  pub headless : is_some hc.interactive_sudo ≡ false

validate_host-ValidHost :
    (w : WatchConfig) (host : String) (hc : HostConfig)
    → accepted (validate_host w host hc) ≡ true
    → ValidHost hc
unfolding validate_host
validate_host-ValidHost w host hc h =
    let p = with_context (in_host w host "") (profile_sel hc) in
    let m = with_context (in_host w host "") (deploy_mode hc) in
    let after_mode = accepted_rest m _ (accepted_rest p _ h) in
    let last =
      accepted_guarded _ _ (accepted_rest (check_bootstrap w host hc.bootstrap) _ after_mode) in
    record {
      profile = sym (accepted_context (in_host w host "") (profile_sel hc)) ∙ accepted_first p _ h;
      mode =
          sym (accepted_context (in_host w host "") (deploy_mode hc))
          ∙ accepted_first m _ (accepted_rest p _ h);
      headless = ground (arith, last);
    }

abbrev ValidHosts : Map HostConfig → Type 0
ValidHosts hosts = All (λ (p : String × HostConfig). ValidHost p.1) hosts

validate_hosts-ValidHosts :
    (w : WatchConfig) (hosts : Map HostConfig)
    → accepted (validate_hosts w hosts) ≡ true
    → ValidHosts hosts
unfolding validate_hosts
validate_hosts-ValidHosts w [] h = tt
validate_hosts-ValidHosts w ((host, hc) ∷ rest) h = (
  validate_host-ValidHost w host hc (accepted_first (validate_host w host hc) _ h),
  validate_hosts-ValidHosts w rest (accepted_rest (validate_host w host hc) _ h),
)

module _ (parse_cron : String → Result (Unit {0})) where
  -- A watch that the daemon can poll and deploy.
  pub record ValidWatch (w : WatchConfig) : Type 0 where
    pub name : not (is_empty w.name) && all_name_chars w.name ≡ true
    pub ref : is_some (refspec w) ≡ true
    pub label : is_some (ref_label w) ≡ true
    pub cadence : accepted (Validate.cadence parse_cron w) ≡ true
    pub recheck : accepted (recheck_interval w) ≡ true
    pub hosts : ValidHosts w.hosts
    pub some_host : same_number (length w.hosts) 0 ≡ false

  one_ref :
      (w : WatchConfig)
      → (is_some w.branch && not (is_some w.tag) || not (is_some w.branch) && is_some w.tag) ≡ true
      → (is_some (refspec w) ≡ true) × (is_some (ref_label w) ≡ true)
  unfolding refspec ref_label
  one_ref w h = (ground arith, ground arith)

  validate_watch-ValidWatch :
      (seen : List String) (w : WatchConfig)
      → accepted (validate_watch parse_cron seen w) ≡ true
      → ValidWatch w × (member w.name seen ≡ false)
  unfolding validate_watch
  validate_watch-ValidWatch seen w h =
      let (named, h1) = accepted_test (not (is_empty w.name) && all_name_chars w.name) _ _ h in
      let (new, h2) = accepted_test (not (member w.name seen)) _ _ h1 in
      let (one, h3) =
        accepted_test
          (is_some w.branch && not (is_some w.tag) || not (is_some w.branch) && is_some w.tag) _ _
          h2 in
      let (timed, h4) = accepted_both (Validate.cadence parse_cron w) _ h3 in
      let (checked, h5) = accepted_both (recheck_interval w) _ h4 in
      let (filled, h6) = accepted_test (not (same_number (length w.hosts) 0)) _ _ h5 in
      (
        record {
          name = named;
          ref = (one_ref w one).0;
          label = (one_ref w one).1;
          cadence = timed;
          recheck = checked;
          hosts = validate_hosts-ValidHosts w w.hosts h6;
          some_host = ground (arith, filled);
        },
        ground (arith, new),
      )

  -- No two watches have the same name, nor one of the names seen.
  abbrev pub Unseen : List String → List WatchConfig → Type 0
  Unseen seen [] = Unit {0}
  Unseen seen (w ∷ rest) = (member w.name seen ≡ false) × Unseen (w.name ∷ seen) rest

  validate_watches-ValidWatch :
      (seen : List String) (watches : List WatchConfig)
      → accepted (validate_watches parse_cron seen watches) ≡ true
      → All ValidWatch watches × Unseen seen watches
  unfolding validate_watches
  validate_watches-ValidWatch seen [] h = (tt, tt)
  validate_watches-ValidWatch seen (w ∷ rest) h =
      let (first, h1) = accepted_both (validate_watch parse_cron seen w) _ h in
      let (valid, new) = validate_watch-ValidWatch seen w first in
      let (valids, news) = validate_watches-ValidWatch (w.name ∷ seen) rest h1 in
      ((valid, valids), (new, news))

  -- What the daemon relies on holds of every configuration that `validate` accepts: the watches'
  -- names are distinct, not empty and of safe characters, each watch has a ref and its label, a
  -- cadence, a recheck interval and at least one host, and every host has a known profile selection
  -- and a known mode and does not ask for a password.
  pub validate-ValidWatch :
      (cfg : AgentConfig)
      → accepted (validate parse_cron cfg) ≡ true
      → All ValidWatch cfg.watches × Unseen [] cfg.watches
  unfolding validate
  validate-ValidWatch cfg h =
      validate_watches-ValidWatch [] cfg.watches
        (accepted_first (validate_watches parse_cron [] cfg.watches) _ h)

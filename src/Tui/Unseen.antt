-- ===== src/Tui/Unseen.antt =====
-- crates/deptui/src/app.rs: what the logs hold after a key in a password prompt.
use deptui.Prelude.{
  ℕ, ◌+◌, ◌≡◌, refl, ◌∙◌, sym, ap, String, Bool, true, false, Option, none, some, List, [], ◌∷◌,
  length, if◌then◌else◌, map_option,
}
use deptui.Prelude.Result.{Result, ok, err}
use deptui.Flake.{Node}
use deptui.Deploy.{Mode, ProfileSel, SeedPlan}
use deptui.Tui.{
  App, DeploySession, PromptSource, askpass, sudo, sudo_pre, normal, password_prompt, emit,
  sent_stdin, set_cached_password, find_node,
}
use deptui.Tui.Log.{push_log, push_log_tagged, push_log_line, set_main_log, main_log}
use deptui.Tui.Seed.{seed_plan_for, seedable_drift, seed_outcome, log_seed, inert_remote_build_args}
use deptui.Tui.Queue.{
  warn_inert, report_args, report_build_args, announce_start, launch, start_host, pick,
  start_next_in_queue, run_confirmed,
}
use deptui.Tui.Modal.{Key, KeyCode, is_key, edit, set_input, choose}
use deptui.Tui.Passwords.{
  send_sudo, start_pending, submit_password, dismiss_password, handle_key_password_prompt,
}

-- Both logs are the same.
pub record Unseen (a b : App) : Type 0 where
  pub job_log : a.log ≡ b.log
  pub stashed : a.agent.log_state.entries ≡ b.agent.log_state.entries

Unseen-refl : (a : App) → Unseen a a
Unseen-refl a = record { job_log = refl; stashed = refl }

Unseen-via : {a b c : App} → Unseen a c → Unseen b c → Unseen a b
Unseen-via p q = record { job_log = p.job_log ∙ sym q.job_log; stashed = p.stashed ∙ sym q.stashed }

module _ (p : Option String) where
  abbrev holding : App → App
  holding a = record a { cached_password = p }

  seed-holding :
      (node : String) (a : App)
      → (seed_plan_for node (holding a)).1 ≡ holding (seed_plan_for node a).1
  unfolding seed_plan_for seedable_drift log_seed push_log_tagged push_log_line set_main_log
      main_log
  seed-holding node a = said (map_option (seed_outcome node) (seedable_drift node a))
    where
      said :
          (o : Option (Option SeedPlan × String × Bool))
          → (log_seed node o (holding a)).1 ≡ holding (log_seed node o a).1
      said none = refl
      said (some (plan, text, is_err)) = refl

  warn-holding :
      (node : String) (inert : List String) (a : App)
      → warn_inert node inert (holding a) ≡ holding (warn_inert node inert a)
  unfolding warn_inert push_log_tagged push_log_line set_main_log main_log
  warn-holding node [] a = refl
  warn-holding node (i ∷ inert) a = refl

  warned-holding :
      (node : String) (inert : List String) (a : App) (remote : Bool)
      → (if remote then warn_inert node inert (holding a) else holding a)
        ≡ holding (if remote then warn_inert node inert a else a)
  warned-holding node inert a true = warn-holding node inert a
  warned-holding node inert a false = refl

  args-holding :
      (args : List String) (node : String) (a : App)
      → report_args args node (holding a) ≡ holding (report_args args node a)
  unfolding report_args push_log_tagged push_log_line set_main_log main_log
  args-holding [] node a = refl
  args-holding (x ∷ args) node a =
      warned-holding node (inert_remote_build_args (x ∷ args)) _ a.toggles.remote_build

  Unseen-host :
      (node : Node) (queue : List String) (mode : Mode) (profile : ProfileSel) (total done : ℕ)
      (a : App)
      → Unseen
          (start_host node queue mode profile total done (holding a))
          (start_host node queue mode profile total done a)
  unfolding start_host launch emit report_build_args announce_start push_log_tagged push_log_line
      set_main_log main_log
  Unseen-host node queue mode profile total done a =
      let b : App = (seed_plan_for node.name a).1 in
      let same : report_build_args node.name (seed_plan_for node.name (holding a)).1
          ≡ holding (report_build_args node.name b) =
        ap (report_build_args node.name) (seed-holding node.name a)
        ∙ args-holding b.extra_build_args node.name b in
      record {
        job_log = ap (λ c. (announce_start node.name mode profile total done c).log) same;
        stashed =
            ap (λ c. (announce_start node.name mode profile total done c).agent.log_state.entries)
              same;
      }

  Unseen-queue :
      (queue : List String) (mode : Mode) (profile : ProfileSel) (total done : ℕ) (a : App)
      → Unseen
          (start_next_in_queue queue mode profile total done (holding a))
          (start_next_in_queue queue mode profile total done a)
  unfolding start_next_in_queue push_log_tagged push_log_line set_main_log main_log
  Unseen-queue [] mode profile total done a = record { job_log = refl; stashed = refl }
  Unseen-queue (name ∷ queue) mode profile total done a =
      picked (pick name profile (find_node name a.nodes))
        (λ m.
          Unseen-queue queue mode profile total (done + 1) (push_log_tagged m true (some name) a))
        (λ n. Unseen-host n queue mode profile total done a)
    where
      picked :
          (r : Result Node) {f g : String → App} {h k : Node → App}
          → ((m : String) → Unseen (f m) (g m))
          → ((n : Node) → Unseen (h n) (k n))
          → Unseen (elim r [ err m ↦ f m | ok n ↦ h n ]) (elim r [ err m ↦ g m | ok n ↦ k n ])
      picked (err m) p q = p m
      picked (ok n) p q = q n

  Unseen-confirmed :
      (hosts : List String) (mode : Mode) (profile : ProfileSel) (a : App)
      → Unseen (run_confirmed hosts mode profile (holding a)) (run_confirmed hosts mode profile a)
  unfolding run_confirmed push_log_line set_main_log main_log
  Unseen-confirmed hosts mode profile a = Unseen-queue hosts mode profile (length hosts) 0 _

  Unseen-pending :
      (o : Option (List String × Mode × ProfileSel)) (a : App)
      → Unseen (start_pending o (holding a)) (start_pending o a)
  unfolding start_pending
  Unseen-pending none a = record { job_log = refl; stashed = refl }
  Unseen-pending (some (hosts, mode, profile)) a =
      Unseen-confirmed hosts mode profile (record a { pending_deploy = none })

Unseen-sent :
    (p q : String) (a : App)
    → Unseen
        (set_input normal (send_sudo p (set_cached_password p a)))
        (set_input normal (send_sudo q (set_cached_password q a)))
unfolding send_sudo set_cached_password set_input emit push_log push_log_tagged push_log_line
    set_main_log main_log
Unseen-sent p q a = sent a.deploy
  where
    given :
        (tx : Bool)
        → Unseen
            (set_input normal (
              if tx
              then emit (sent_stdin p) (set_cached_password p a)
              else push_log "! no stdin channel available for sudo password" true
                  (set_cached_password p a)))
            (set_input normal (
              if tx
              then emit (sent_stdin q) (set_cached_password q a)
              else push_log "! no stdin channel available for sudo password" true
                  (set_cached_password q a)))
    given true = record { job_log = refl; stashed = refl }
    given false = record { job_log = refl; stashed = refl }

    sent :
        (o : Option DeploySession)
        → Unseen
            (set_input normal (elim o [
              | none ↦
                  push_log "! no stdin channel available for sudo password" true
                    (set_cached_password p a)
              | some s ↦
                  if s.stdin_tx
                  then emit (sent_stdin p) (set_cached_password p a)
                  else push_log "! no stdin channel available for sudo password" true
                      (set_cached_password p a)
            ]))
            (set_input normal (elim o [
              | none ↦
                  push_log "! no stdin channel available for sudo password" true
                    (set_cached_password q a)
              | some s ↦
                  if s.stdin_tx
                  then emit (sent_stdin q) (set_cached_password q a)
                  else push_log "! no stdin channel available for sudo password" true
                      (set_cached_password q a)
            ]))
    sent none = record { job_log = refl; stashed = refl }
    sent (some s) = given s.stdin_tx

Unseen-submit :
    (p q : String) (source : PromptSource) (a : App)
    → Unseen (submit_password p source a) (submit_password q source a)
unfolding submit_password set_cached_password set_input emit
Unseen-submit p q askpass a = record { job_log = refl; stashed = refl }
Unseen-submit p q sudo a = Unseen-sent p q a
Unseen-submit p q sudo_pre a =
    Unseen-via (Unseen-pending (some p) a.pending_deploy (set_input normal a))
      (Unseen-pending (some q) a.pending_deploy (set_input normal a))

-- Whatever key is pressed in a password prompt and whatever state the app is in, what both logs
-- hold afterwards does not depend on the password typed so far, also where the password starts a
-- confirmed batch.
pub handle_key_password_prompt-Unseen :
    (key : Key) (prompt : String) (source : PromptSource) (a : App) (p q : String)
    → Unseen
        (handle_key_password_prompt key prompt p source a)
        (handle_key_password_prompt key prompt q source a)
unfolding handle_key_password_prompt choose set_input
handle_key_password_prompt-Unseen key prompt source a p q =
    chosen (is_key KeyCode.enter key.code) (is_key KeyCode.esc key.code)
  where
    chosen :
        (enter esc : Bool)
        → Unseen
            (choose
              ((enter, submit_password p source a) ∷ (esc, dismiss_password source a) ∷ [])
              (set_input (password_prompt prompt (edit false key.code p) source) a))
            (choose
              ((enter, submit_password q source a) ∷ (esc, dismiss_password source a) ∷ [])
              (set_input (password_prompt prompt (edit false key.code q) source) a))
    chosen true esc = Unseen-submit p q source a
    chosen false true = Unseen-refl (dismiss_password source a)
    chosen false false = record { job_log = refl; stashed = refl }

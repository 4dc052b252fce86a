-- ===== src/Tui/Calm.antt =====
-- crates/deptui/src/app.rs: a relation between states that most operations stay within: no deploy
-- is started, the running one, the hosts and a stashed request are left alone, no mode from which
-- a key starts a deploy is entered, and the logs and the cursors stay within their bounds.
pub mod Cursors
pub mod Checks
pub mod Views
pub mod Modals
use deptui.Prelude.{
  ℕ, ◌+◌, ◌-◌, ◌≤◌, ◌<◌, ◌≡◌, refl, ◌∙◌, String, Bool, true, false, Option, none, some, List, [],
  ◌∷◌, length, arith, ap, subst, All, if◌then◌else◌,
}
use deptui.Prelude.Vectors.{push_capped, length-push_capped}
use deptui.Remote.Status.{LogKind, plain, HostStatus}
use deptui.Tui.{
  App, AgentUi, InputMode, Effect, World, started, confirm_deploy, password_prompt, sudo_pre, emit,
  update_status,
}
use deptui.Tui.Agent.{push_agent_log_line, parse_agent_line, agent_log, set_agent_log}
use deptui.Tui.Joblog.{LogEntry}
use deptui.Tui.Log.{push_log_line, push_log, push_log_tagged, main_log, set_main_log}
use deptui.Tui.Modal.{choose, set_input}

-- The hosts of the deploys that were started, the latest first.
abbrev pub launched : List Effect → List String
launched [] = []
launched (started req pw ∷ es) = req.node ∷ launched es
launched (_ ∷ es) = launched es

-- A mode whose next key may start a deploy.
abbrev pub armed : InputMode → Bool
armed (confirm_deploy hosts mode profile) = true
armed (password_prompt prompt buf sudo_pre) = true
armed _ = false

abbrev pub Bounded : App → Type 0
Bounded a = (length a.log ≤ 2000) × (length a.agent.log_state.entries ≤ 2000)

abbrev pub InRange : App → Type 0
InRange a = (a.selected ≤ length a.nodes - 1) × (a.toggle_index < 5) × (a.command_index < 14)

pub record Calm (a b : App) : Type 0 where
  pub launches : launched b.effects ≡ launched a.effects
  pub same_deploy : b.deploy ≡ a.deploy
  pub same_pending : b.pending_deploy ≡ a.pending_deploy
  pub same_nodes : b.nodes ≡ a.nodes
  pub disarmed : armed b.input ≡ true → b.input ≡ a.input
  pub logs : Bounded a → Bounded b
  pub cursors : InRange a → InRange b

pub Calm-refl : (a : App) → Calm a a
Calm-refl a = ground arith

pub Calm-trans : {a b c : App} → Calm a b → Calm b c → Calm a c
Calm-trans {a} {b} {c} p q = record {
  launches = q.launches ∙ p.launches;
  same_deploy = q.same_deploy ∙ p.same_deploy;
  same_pending = q.same_pending ∙ p.same_pending;
  same_nodes = q.same_nodes ∙ p.same_nodes;
  disarmed = λ h. q.disarmed h ∙ p.disarmed (subst (λ m. armed m ≡ true) (q.disarmed h) h);
  logs = λ h. q.logs (p.logs h);
  cursors = λ h. q.cursors (p.cursors h);
}

pub Calm-push_log_line :
    (text : String) (is_err : Bool) (host : Option String) (kind : LogKind) (a : App)
    → Calm a (push_log_line text is_err host kind a)
unfolding push_log_line set_main_log main_log
Calm-push_log_line text is_err host kind a =
    let e : LogEntry = record { text = text; is_err = is_err; host = host; kind = kind } in
    record {
      launches = refl;
      same_deploy = refl;
      same_pending = refl;
      same_nodes = refl;
      disarmed = λ h. refl;
      logs = λ h. ground (
        arith,
        length-push_capped 2000 e a.log,
        length-push_capped 2000 e a.agent.log_state.entries,
      );
      cursors = λ h. h;
    }

pub Calm-push_log_tagged :
    (text : String) (is_err : Bool) (host : Option String) (a : App)
    → Calm a (push_log_tagged text is_err host a)
unfolding push_log_tagged
Calm-push_log_tagged text is_err host a = Calm-push_log_line text is_err host plain a

pub Calm-push_log : (text : String) (is_err : Bool) (a : App) → Calm a (push_log text is_err a)
unfolding push_log
Calm-push_log text is_err a = Calm-push_log_tagged text is_err none a

pub Calm-push_agent_log_line : (text : String) (a : App) → Calm a (push_agent_log_line text a)
unfolding push_agent_log_line set_agent_log agent_log
Calm-push_agent_log_line text a =
    let e : LogEntry = parse_agent_line a.agent text in
    record {
      launches = refl;
      same_deploy = refl;
      same_pending = refl;
      same_nodes = refl;
      disarmed = λ h. refl;
      logs = λ h. ground (
        arith,
        length-push_capped 2000 e a.log,
        length-push_capped 2000 e a.agent.log_state.entries,
      );
      cursors = λ h. h;
    }

pub Calm-update_status :
    (name : String) (f : HostStatus → HostStatus) (a : App) → Calm a (update_status name f a)
unfolding update_status
Calm-update_status name f a = ground arith

-- A mode that is not armed may follow any.
pub Calm-set_input : (m : InputMode) (a : App) → armed m ≡ false → Calm a (set_input m a)
unfolding set_input
Calm-set_input m a h = ground arith

infixr 5 ◌▹◌
abbrev pub ◌▹◌ : {A B : Type 0} → A → B → A × B
a ▹ b = (a, b)

-- Of the arms of a match, whatever holds of each holds of the one chosen.
pub choose-All :
    {A : Type 0} (P : A → Type 0) (arms : List (Bool × A)) (d : A)
    → All (λ (arm : Bool × A). P arm.1) arms
    → P d
    → P (choose arms d)
unfolding choose
choose-All P [] d h hd = hd
choose-All P ((true, x) ∷ arms) d h hd = h.0
choose-All P ((false, x) ∷ arms) d h hd = choose-All P arms d h.1 hd

pub Calm-if : (b : Bool) (a x y : App) → Calm a x → Calm a y → Calm a (if b then x else y)
Calm-if true a x y hx hy = hx
Calm-if false a x y hx hy = hy

module _ {A : Type 0} (a : App) where
  pub Calm-option :
      (o : Option A) (d : App) (f : A → App)
      → Calm a d
      → ((x : A) → Calm a (f x))
      → Calm a (elim o [ none ↦ d | some x ↦ f x ])
  Calm-option none d f hd hf = hd
  Calm-option (some x) d f hd hf = hf x

  pub Calm-list :
      (xs : List A) (d : App) (f : A → List A → App)
      → Calm a d
      → ((x : A) (rest : List A) → Calm a (f x rest))
      → Calm a (elim xs [ [] ↦ d | x ∷ rest ↦ f x rest ])
  Calm-list [] d f hd hf = hd
  Calm-list (x ∷ rest) d f hd hf = hf x rest

-- One more operation after others: the rules of `search`.
module _ {a b : App} where
  pub logged_line :
      (text : String) (is_err : Bool) (host : Option String) (kind : LogKind)
      → Calm a b
      → Calm a (push_log_line text is_err host kind b)
  logged_line text is_err host kind h = Calm-trans h (Calm-push_log_line text is_err host kind b)

  pub tagged :
      (text : String) (is_err : Bool) (host : Option String)
      → Calm a b
      → Calm a (push_log_tagged text is_err host b)
  tagged text is_err host h = Calm-trans h (Calm-push_log_tagged text is_err host b)

  pub logged : (text : String) (is_err : Bool) → Calm a b → Calm a (push_log text is_err b)
  logged text is_err h = Calm-trans h (Calm-push_log text is_err b)

  pub noted :
      (name : String) (f : HostStatus → HostStatus) → Calm a b → Calm a (update_status name f b)
  noted name f h = Calm-trans h (Calm-update_status name f b)

pub ruleset calm_rules = (Calm-refl, Calm-if, logged_line, tagged, logged, noted)

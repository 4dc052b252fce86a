-- ===== src/Daemon/Keeps.antt =====
-- Tasks that keep a property of the daemon and of the runs that it has spawned; a rule for each way
-- to build a task.
use deptui.Prelude.{String, Bool, true, false, List, if◌then◌else◌}
use deptui.Runner.{RunPlan}
use deptui.Daemon.{
  Daemon, System, Task, return, act, here, modify, now, announce, save_state, ◌>>=◌,
}
use deptui.Effects.{Act, Call}

module _ (J : Daemon → List (String × RunPlan) → Type 0) where
  pub record Keeps {A : Type 0} (t : Task A) : Type 0 where
    pub at : (s : System) → J s.daemon s.runs → J (t s).1.daemon (t s).1.runs

  module _ {A : Type 0} where
    pub Keeps-return : (a : A) → Keeps (return a)
    unfolding return
    Keeps-return a = record { at = λ s h. h }

    pub Keeps-now : (f : List Call → A) → Keeps (now f)
    unfolding now
    Keeps-now f = record { at = λ s h. h }

    pub Keeps-act : (m : Act A) → Keeps (act m)
    unfolding act
    Keeps-act m = record { at = λ s h. h }

    pub Keeps-if : (b : Bool) (t u : Task A) → Keeps t → Keeps u → Keeps (if b then t else u)
    Keeps-if true t u ht hu = ht
    Keeps-if false t u ht hu = hu

  pub Keeps-here : Keeps here
  unfolding here
  Keeps-here = record { at = λ s h. h }

  pub Keeps-announce : (text : String) → Keeps (announce text)
  unfolding announce
  Keeps-announce text = record { at = λ s h. h }

  pub Keeps-save_state : Keeps save_state
  unfolding save_state
  Keeps-save_state = record { at = λ s h. h }

  pub Keeps-modify :
      (f : Daemon → Daemon)
      → ((d : Daemon) (runs : List (String × RunPlan)) → J d runs → J (f d) runs)
      → Keeps (modify f)
  unfolding modify
  Keeps-modify f h = record { at = λ s. h s.daemon s.runs }

  pub Keeps-bind :
      {A B : Type 0}
      → (t : Task A) (f : A → Task B) → Keeps t
      → ((a : A) → Keeps (f a))
      → Keeps (t >>= f)
  unfolding ◌>>=◌
  Keeps-bind t f ht hf = record { at = λ s h. (hf (t s).0).at (t s).1 (ht.at s h) }

pub ruleset keep_rules = (
  Keeps-return, Keeps-now, Keeps-act, Keeps-if, Keeps-here, Keeps-announce, Keeps-save_state,
  Keeps-modify, Keeps-bind,
)

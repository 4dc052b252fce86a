-- ===== src/Daemon/Sound.antt =====
-- crates/deptui-agent/src/daemon.rs: the orchestrator's invariant, and that the poll keeps it.
use deptui.Prelude.{
  ℕ, ◌+◌, ◌%◌, String, ◌≡◌, refl, sym, ap, Bool, true, false, ◌&&◌, ◌||◌, Option, none, some, List,
  [], ◌∷◌, ◌++◌, ◌==◌, if◌then◌else◌, is_some, any_by, arith, eq_iff,
}
use deptui.Config.{WatchConfig, u64_mod}
use deptui.State.{update_watch, watch_state}
use deptui.Runner.{PlanHost, RunPlan}
use deptui.Daemon.{Daemon, System, save_state, watch_cfg, ◌>>=◌, ◌>>◌}
use deptui.Daemon.Poll.{enqueue, spawn_run, fresh_run_id, record_head, poll_head, request_poll}
use deptui.Daemon.Polled.{Keeps-poll_head}
use deptui.Daemon.Keeps.{Keeps}
use deptui.Effects.{Env}

-- No watch is there twice.
abbrev pub Distinct : List (String × String) → Type 0
Distinct [] = Unit {0}
Distinct (p ∷ rest) = (any_by (λ (q : String × String). q.0 == p.0) rest ≡ false) × Distinct rest

-- The number that a `u64` counter gives after `id`.
abbrev pub next_id : ℕ → ℕ
next_id id = (id + 1) % u64_mod

-- Each run has the number that follows the one of the run before it, newest first.
abbrev pub Follows : ℕ → List (String × RunPlan) → Type 0
Follows id [] = Unit {0}
Follows id ((w, plan) ∷ rest) = (id ≡ next_id plan.run_id) × Follows plan.run_id rest

-- And the newest has the counter's.
abbrev pub Numbered : ℕ → List (String × RunPlan) → Type 0
Numbered counter [] = Unit {0}
Numbered counter ((w, plan) ∷ rest) = (plan.run_id ≡ counter) × Follows plan.run_id rest

Follows-Numbered :
    (counter : ℕ) (runs : List (String × RunPlan))
    → Numbered counter runs
    → Follows (next_id counter) runs
Follows-Numbered counter [] h = tt
Follows-Numbered counter ((w, plan) ∷ rest) h = (ap next_id (sym h.0), h.1)

abbrev pub nobody_waits : List (String × String) → Bool
nobody_waits [] = true
nobody_waits (p ∷ rest) = false

abbrev pub busy : Daemon → Bool
busy d = is_some d.running || d.validating

-- A run and a validation are not under way at once, no watch waits twice, and the runs are numbered
-- one after the other.
pub record Orderly (d : Daemon) (runs : List (String × RunPlan)) : Type 0 where
  pub one : is_some d.running && d.validating ≡ false
  pub distinct : Distinct d.pending
  pub fresh : Numbered d.state.next_run_id runs

-- And polls wait only while the daemon is busy.
pub record Sound (d : Daemon) (runs : List (String × RunPlan)) : Type 0 where
  pub orderly : Orderly d runs
  pub queued : busy d || nobody_waits d.pending ≡ true

absent-append :
    (x p : String × String) (xs : List (String × String))
    → any_by (λ (q : String × String). q.0 == x.0) xs ≡ false
    → (x.0 == p.0) ≡ false
    → any_by (λ (q : String × String). q.0 == x.0) (xs ++ p ∷ []) ≡ false
absent-append x p [] h n = ground (arith, eq_iff x.0 p.0, eq_iff p.0 x.0)
absent-append x p (y ∷ ys) h n = ground (arith, absent-append x p ys (ground arith) n)

Distinct-append :
    (p : String × String) (xs : List (String × String))
    → Distinct xs
    → any_by (λ (q : String × String). q.0 == p.0) xs ≡ false
    → Distinct (xs ++ p ∷ [])
Distinct-append p [] h n = (refl, tt)
Distinct-append p (x ∷ xs) h n =
    (absent-append x p xs h.0 (ground arith), Distinct-append p xs h.1 (ground arith))

Distinct-enqueue :
    (watch trigger : String) (xs : List (String × String))
    → Distinct xs
    → Distinct (enqueue watch trigger xs)
unfolding enqueue
Distinct-enqueue watch trigger xs h = ground (arith, Distinct-append (watch, trigger) xs h)

abbrev Ready : Daemon → List (String × RunPlan) → Type 0
Ready d runs = Sound d runs × (d.validating ≡ false)

abbrev SoundAfter : Unit {0} × System → Type 0
SoundAfter p = Sound p.1.daemon p.1.runs

sound_if :
    (b : Bool) (x y : Unit {0} × System)
    → (b ≡ true → SoundAfter x)
    → (b ≡ false → SoundAfter y)
    → SoundAfter (if b then x else y)
sound_if true x y hx hy = hx refl
sound_if false x y hx hy = hy refl

Sound-queue :
    (watch trigger : String) (s : System)
    → Sound s.daemon s.runs
    → busy s.daemon ≡ true
    → Sound (record s.daemon { pending = enqueue watch trigger s.daemon.pending }) s.runs
Sound-queue watch trigger s h hb = record {
  orderly = record {
    one = h.orderly.one;
    distinct = Distinct-enqueue watch trigger s.daemon.pending h.orderly.distinct;
    fresh = h.orderly.fresh;
  };
  queued = ground arith;
}

module _ (env : Env) where
  Keeps-spawn :
      (watch rev trigger : String) (hosts : List PlanHost)
      → Keeps Ready (
          fresh_run_id env >>= λ id.
          spawn_run env watch (record { run_id = id; rev = rev; trigger = trigger; hosts = hosts })
          >> save_state)
  unfolding fresh_run_id spawn_run save_state ◌>>=◌
  Keeps-spawn watch rev trigger hosts = record {
    at = λ s h. (
      record {
        orderly = record {
          one = h.1;
          distinct = h.0.orderly.distinct;
          fresh = (refl, Follows-Numbered s.daemon.state.next_run_id s.runs h.0.orderly.fresh);
        };
        queued = refl;
      },
      h.1,
    );
  }

  Ready-head :
      (watch rev : String) (d : Daemon) (runs : List (String × RunPlan))
      → Ready d runs
      → Ready (record_head env watch rev d) runs
  unfolding record_head update_watch
  Ready-head watch rev d runs h = (
    record {
      orderly = record {
        one = h.0.orderly.one;
        distinct = h.0.orderly.distinct;
        fresh = h.0.orderly.fresh;
      };
      queued = h.0.queued;
    },
    h.1,
  )

  keeps_configured :
      (watch trigger : String) (o : Option WatchConfig) (s : System)
      → Sound s.daemon s.runs
      → s.daemon.validating ≡ false
      → SoundAfter (elim o [ none ↦ (tt, s) | some w ↦ poll_head env watch trigger w s ])
  keeps_configured watch trigger none s h hv = h
  keeps_configured watch trigger (some w) s h hv =
      ((Keeps-poll_head Ready env Keeps-spawn Ready-head watch trigger w).at s (h, hv)).0

  -- `request_poll` keeps the invariant on every path.
  pub Keeps-request : (watch trigger : String) → Keeps Sound (request_poll env watch trigger)
  unfolding request_poll
  Keeps-request watch trigger = record {
    at = λ s h. sound_if (busy s.daemon) _ _ (Sound-queue watch trigger s h) λ free.
        sound_if s.daemon.state.paused _ _ (λ e. h)
          λ awake.
            sound_if (watch_state s.daemon.state watch).paused _ _ (λ e. h)
              λ awake'.
                keeps_configured watch trigger (watch_cfg s.daemon watch) s h (ground arith);
  }

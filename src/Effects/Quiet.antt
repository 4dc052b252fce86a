-- ===== src/Effects/Quiet.antt =====
-- Actions that start no deploy, whatever they return, and actions of which every result has a
-- property; a rule for each way to build an action.
use deptui.Prelude.{ℕ, String, ◌≡◌, refl, ◌∙◌, Bool, true, false, List, [], ◌∷◌, if◌then◌else◌}
use deptui.Prelude.Result.{Result, ok, err}
use deptui.Deploy.{DeployRequest}
use deptui.Effects.{
  Process, Env, Call, spawned, said, hooked, posted, started_deploy, killed_deploy, made_dir,
  Machine, Act, pure, fail, lift, attempt, ◌>>=◌, map_result, ask, look, tell, output,
  output_within,
}

-- The deploys that were started, newest first.
unfoldable pub started : List Call → List DeployRequest
started [] = []
started (started_deploy r ∷ calls) = r ∷ started calls
started (spawned p ∷ calls) = started calls
started (said t ∷ calls) = started calls
started (hooked t e ∷ calls) = started calls
started (posted u k t e ∷ calls) = started calls
started (killed_deploy ∷ calls) = started calls
started (made_dir d ∷ calls) = started calls

pub record Quiet {A : Type 0} (m : Act A) : Type 0 where
  pub at : (s : Machine) → started (m s).1.calls ≡ started s.calls

-- A call that starts no deploy.
abbrev pub is_quiet : Call → Bool
is_quiet (started_deploy r) = false
is_quiet _ = true

started_of_quiet :
    (c : Call) (calls : List Call) → is_quiet c ≡ true → started (c ∷ calls) ≡ started calls
unfolding started
started_of_quiet (started_deploy r) calls h = cc
started_of_quiet (spawned p) calls h = refl
started_of_quiet (said t) calls h = refl
started_of_quiet (hooked t e) calls h = refl
started_of_quiet (posted u k t e) calls h = refl
started_of_quiet killed_deploy calls h = refl
started_of_quiet (made_dir d) calls h = refl

module _ {A : Type 0} where
  pub Quiet-pure : (a : A) → Quiet (pure a)
  unfolding pure
  Quiet-pure a = record { at = λ s. refl }

  pub Quiet-fail : (e : String) → Quiet (fail {A = A} e)
  unfolding fail
  Quiet-fail e = record { at = λ s. refl }

  pub Quiet-lift : (r : Result A) → Quiet (lift r)
  unfolding lift
  Quiet-lift r = record { at = λ s. refl }

  pub Quiet-look : (f : List Call → A) → Quiet (look f)
  unfolding look
  Quiet-look f = record { at = λ s. refl }

  pub Quiet-attempt : (m : Act A) → Quiet m → Quiet (attempt m)
  unfolding attempt
  Quiet-attempt m q = record { at = q.at }

  pub Quiet-if : (b : Bool) (m n : Act A) → Quiet m → Quiet n → Quiet (if b then m else n)
  Quiet-if true m n qm qn = qm
  Quiet-if false m n qm qn = qn

  pub Quiet-ask : (c : Call) (f : List Call → Result A) → is_quiet c ≡ true → Quiet (ask c f)
  unfolding ask
  Quiet-ask c f h = record { at = λ s. started_of_quiet c s.calls h }

pub Quiet-tell : (c : Call) → is_quiet c ≡ true → Quiet (tell c)
unfolding tell
Quiet-tell c h = record { at = λ s. started_of_quiet c s.calls h }

pub Quiet-output : (env : Env) (p : Process) → Quiet (output env p)
unfolding output
Quiet-output env p = record { at = λ s. started_of_quiet (spawned p) s.calls refl }

pub Quiet-output_within : (env : Env) (t : ℕ) (p : Process) → Quiet (output_within env t p)
unfolding output_within
Quiet-output_within env t p = record { at = λ s. started_of_quiet (spawned p) s.calls refl }

module _ {A B : Type 0} where
  pub Quiet-map_result : (f : Result A → Result B) (m : Act A) → Quiet m → Quiet (map_result f m)
  unfolding map_result
  Quiet-map_result f m q = record { at = q.at }

  Quiet-rest :
      (r : Result A) (f : A → Act B) (s : Machine)
      → ((a : A) → Quiet (f a))
      → started ((lift r >>= f) s).1.calls ≡ started s.calls
  unfolding ◌>>=◌
  Quiet-rest (ok a) f s h = (h a).at s
  Quiet-rest (err e) f s h = refl

  pub Quiet-bind : (m : Act A) (f : A → Act B) → Quiet m → ((a : A) → Quiet (f a)) → Quiet (m >>= f)
  unfolding ◌>>=◌
  Quiet-bind m f q h = record { at = λ s. Quiet-rest (m s).0 f (m s).1 h ∙ q.at s }

pub ruleset quiet_rules = (
  Quiet-pure, Quiet-fail, Quiet-lift, Quiet-look, Quiet-attempt, Quiet-if, Quiet-ask, Quiet-tell,
  Quiet-output, Quiet-output_within, Quiet-map_result, Quiet-bind,
)

-- Every result has the property.
pub record Post {A : Type 0} (Q : Result A → Type 0) (m : Act A) : Type 0 where
  pub at : (s : Machine) → Q (m s).0

module _ {A B : Type 0} (Q : Result B → Type 0) where
  post_rest :
      (r : Result A) (f : A → Act B) (s : Machine)
      → ((e : String) → Q (err e))
      → ((a : A) → Post Q (f a))
      → Q ((lift r >>= f) s).0
  unfolding ◌>>=◌
  post_rest (ok a) f s he h = (h a).at s
  post_rest (err e) f s he h = he e

  pub Post-bind :
      (m : Act A) (f : A → Act B)
      → ((e : String) → Q (err e))
      → ((a : A) → Post Q (f a))
      → Post Q (m >>= f)
  unfolding ◌>>=◌
  Post-bind m f he h = record { at = λ s. post_rest (m s).0 f (m s).1 he h }

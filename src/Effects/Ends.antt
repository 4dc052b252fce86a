-- ===== src/Effects/Ends.antt =====
-- Actions that never fail and whose results have a property; a rule for each way to build an action.
use deptui.Prelude.{◌≡◌, refl, Bool, true, false, List, if◌then◌else◌}
use deptui.Prelude.Result.{Result, ok, err}
use deptui.Effects.{Call, Machine, Act, pure, lift, attempt, ◌>>=◌, look, tell}

-- The result is a value with the property.
abbrev pub Ended : {A : Type 0} → (A → Type 0) → Result A → Type 0
Ended P (ok a) = P a
Ended P (err e) = ⊥

pub record Ends {A : Type 0} (P : A → Type 0) (m : Act A) : Type 0 where
  pub at : (s : Machine) → Ended P (m s).0

abbrev pub Any : {A : Type 0} → A → Type 0
Any a = Unit {0}

module _ {A : Type 0} where
  pub Ends-pure : (P : A → Type 0) (a : A) → P a → Ends P (pure a)
  unfolding pure
  Ends-pure P a h = record { at = λ s. h }

  pub Ends-done : (a : A) → Ends Any (pure a)
  unfolding pure
  Ends-done a = record { at = λ s. tt }

  pub Ends-look : (f : List Call → A) → Ends Any (look f)
  unfolding look
  Ends-look f = record { at = λ s. tt }

  pub Ends-attempt : (m : Act A) → Ends Any (attempt m)
  unfolding attempt
  Ends-attempt m = record { at = λ s. tt }

  pub Ends-if :
      (P : A → Type 0) (b : Bool) (m n : Act A) → Ends P m → Ends P n → Ends P (if b then m else n)
  Ends-if P true m n hm hn = hm
  Ends-if P false m n hm hn = hn

pub Ends-tell : (c : Call) → Ends Any (tell c)
unfolding tell
Ends-tell c = record { at = λ s. tt }

module _ {A B : Type 0} (P : A → Type 0) (Q : B → Type 0) where
  Ends-rest :
      (r : Result A) (f : A → Act B) (s : Machine)
      → Ended P r
      → ((a : A) → P a → Ends Q (f a))
      → Ended Q ((lift r >>= f) s).0
  unfolding ◌>>=◌
  Ends-rest (ok a) f s hr h = (h a hr).at s
  Ends-rest (err e) f s hr h = absurd hr

  pub Ends-bind :
      (m : Act A) (f : A → Act B) → Ends P m → ((a : A) → P a → Ends Q (f a)) → Ends Q (m >>= f)
  unfolding ◌>>=◌
  Ends-bind m f hm h = record { at = λ s. Ends-rest (m s).0 f (m s).1 (hm.at s) h }

module _ {A B : Type 0} (Q : B → Type 0) where
  -- Where nothing is asked of the first action's value.
  pub Ends-then :
      (m : Act A) (f : A → Act B) → Ends Any m → ((a : A) → Ends Q (f a)) → Ends Q (m >>= f)
  Ends-then m f hm h = Ends-bind Any Q m f hm (λ a u. h a)

pub ruleset ends_rules =
    (Ends-pure, Ends-done, Ends-look, Ends-attempt, Ends-if, Ends-tell, Ends-then)

module _ {A B : Type 0} where
  bound_rest :
      (r : Result A) (f : A → Act B) (s : Machine) (b : B)
      → ((lift r >>= f) s).0 ≡ ok b
      → (a : A) × (r ≡ ok a) × ((f a s).0 ≡ ok b)
  unfolding ◌>>=◌
  bound_rest (ok a) f s b h = (a, refl, h)
  bound_rest (err e) f s b h = cc

  -- What a sequence that came through says of its parts.
  pub bound_ok :
      (m : Act A) (f : A → Act B) (s : Machine) (b : B)
      → ((m >>= f) s).0 ≡ ok b
      → (a : A) × ((m s).0 ≡ ok a) × ((f a (m s).1).0 ≡ ok b)
  unfolding ◌>>=◌
  bound_ok m f s b h = bound_rest (m s).0 f (m s).1 b h

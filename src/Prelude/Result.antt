-- ===== src/Prelude/Result.antt =====
-- `anyhow::Result`, with an error as the text that `{:#}` prints for it.
use Prim.Native.String.{String}
use mathlib.Core.Path.{◌≡◌}
use mathlib.Core.Option.{Option, none, some}
use mathlib.Core.List.{[], ◌∷◌}
use deptui.Prelude.Text.{concat}

pub data Result {ℓ} (A : Type ℓ) : Type ℓ where
  ok : A → Result A
  err : String → Result A

-- `?` on a result.
abbrev pub try_result {ℓ κ} : {A : Type ℓ} {B : Type κ} → Result A → (A → Result B) → Result B
try_result (ok a) f = f a
try_result (err e) f = err e

-- `with_context`: the context stands in front of the cause.
abbrev pub with_context {ℓ} : {A : Type ℓ} → String → Result A → Result A
with_context c (ok a) = ok a
with_context c (err e) = err (concat (c ∷ ": " ∷ e ∷ []))

abbrev pub ok_or {ℓ} : {A : Type ℓ} → Option A → String → Result A
ok_or none e = err e
ok_or (some a) e = ok a

-- `Result::unwrap_or`.
abbrev pub result_or {ℓ} : {A : Type ℓ} → Result A → A → A
result_or (ok a) d = a
result_or (err e) d = d

-- The predicate holds of the value that was returned, if one was.
abbrev pub IsOk {ℓ} : {A : Type ℓ} → Result A → Type ℓ
IsOk {A} r = (a : A) × (r ≡ ok a)

-- ===== src/Prelude/Vectors.antt =====
-- `Vec` and its indices, measured by native numbers, and the integers that step them.
use Prim.Native.Nat.{ℕ, zero, suc, ◌+◌, ◌-◌, ◌%◌, ◌≤◌, ◌<◌}
use mathlib.Core.Path.{◌≡◌}
use mathlib.Core.Bool.{Bool, true, false}
use mathlib.Core.Option.{Option, none, some}
use mathlib.Core.List.{List, [], ◌∷◌, ◌++◌}
use native.Mathlib.Omega.{arith}
use deptui.Prelude.Tests.{ltb, leb, if◌then◌else◌, map_option}
use deptui.Prelude.Text.{ℤ, pos, negsuc}
use deptui.Prelude.Lists.{length, length-append}

module _ {ℓ} {A : Type ℓ} where
  abbrev pub get_elem? : List A → ℕ → Option A
  get_elem? [] i = none
  get_elem? (x ∷ xs) zero = some x
  get_elem? (x ∷ xs) (suc i) = get_elem? xs i

  abbrev pub take : ℕ → List A → List A
  take zero xs = []
  take (suc n) [] = []
  take (suc n) (x ∷ xs) = x ∷ take n xs

  abbrev pub drop : ℕ → List A → List A
  drop zero xs = xs
  drop (suc n) [] = []
  drop (suc n) (x ∷ xs) = drop n xs

  -- `Iterator::position`.
  abbrev pub position : (A → Bool) → List A → Option ℕ
  position p [] = none
  position p (x ∷ xs) = let rest = map_option suc (position p xs) in if p x then some 0 else rest

  -- `Vec::remove`, which the program calls with an index that it has found.
  abbrev pub remove_at : ℕ → List A → List A
  remove_at i [] = []
  remove_at zero (x ∷ xs) = xs
  remove_at (suc i) (x ∷ xs) = x ∷ remove_at i xs

  abbrev pub is_nil : List A → Bool
  is_nil [] = true
  is_nil (x ∷ xs) = false

  pub length-drop : (n : ℕ) (xs : List A) → length (drop n xs) ≡ length xs - n
  length-drop zero xs = omega arith
  length-drop (suc n) [] = omega arith
  length-drop (suc n) (x ∷ xs) = omega (arith, length-drop n xs)

  -- The last `limit` entries: a push and the drain that follows it.
  abbrev pub push_capped : ℕ → A → List A → List A
  push_capped limit a xs =
      let grown = xs ++ a ∷ [] in
      if ltb limit (length grown) then drop (length grown - limit) grown else grown

  pub length-push_capped :
      (limit : ℕ) (a : A) (xs : List A)
      → length xs ≤ limit
      → length (push_capped limit a xs) ≤ limit
  length-push_capped limit a xs h =
      ground (
        arith,
        length-append xs (a ∷ []),
        length-drop (length (xs ++ a ∷ []) - limit) (xs ++ a ∷ []),
      )

-- `(i as i32 + delta).rem_euclid(len)`, for indices and lengths below 2^31.
unfoldable pub rem_euclid : ℤ → ℕ → ℕ
rem_euclid (pos n) len = n % len
rem_euclid (negsuc n) len = (len - 1) - n % len

abbrev sub_ℕ : ℕ → ℕ → ℤ
sub_ℕ a b = if leb b a then pos (a - b) else negsuc (b - a - 1)

unfoldable pub offset : ℕ → ℤ → ℤ
offset i (pos n) = pos (i + n)
offset i (negsuc n) = sub_ℕ i (suc n)

-- `.max(0) as usize`.
unfoldable pub at_least_zero : ℤ → ℕ
at_least_zero (pos n) = n
at_least_zero (negsuc n) = 0

unfoldable pub step_index : ℕ → ℤ → ℕ → ℕ
unfolding rem_euclid offset
step_index i delta len = rem_euclid (offset i delta) len

pub rem_euclid-lt : (z : ℤ) (len : ℕ) → 0 < len → rem_euclid z len < len
unfolding rem_euclid
rem_euclid-lt (pos n) len h = grind arith
rem_euclid-lt (negsuc n) len h = omega arith

pub step_index-lt : (i : ℕ) (delta : ℤ) (len : ℕ) → 0 < len → step_index i delta len < len
unfolding step_index
step_index-lt i delta len h = rem_euclid-lt (offset i delta) len h

-- ===== src/Prelude/Strip.antt =====
-- More of Rust's `str`: prefixes, suffixes, and pieces at a character.
use Prim.Native.Nat.{ℕ, zero, suc}
use Prim.Native.Char.{code}
use Prim.Native.String.{String, count}
use mathlib.Core.Option.{Option, none, some}
use mathlib.Core.List.{List, [], ◌∷◌}
use text.Mathlib.Text.{◌==◌}
use deptui.Prelude.Tests.{same_number, if◌then◌else◌, map_option}
use deptui.Prelude.Text.{split_on}

-- `str::strip_suffix`.
unfoldable pub strip_suffix : String → String → Option String
strip_suffix suffix String.[] = if suffix == "" then some "" else none
strip_suffix suffix (String.◌∷◌ c s) =
    let rest = strip_suffix suffix s in
    if String.◌∷◌ c s == suffix then some "" else map_option (λ t. String.◌∷◌ c t) rest

-- `str::strip_prefix`.
unfoldable pub strip_prefix : String → String → Option String
strip_prefix String.[] s = some s
strip_prefix (String.◌∷◌ p prefix) String.[] = none
strip_prefix (String.◌∷◌ p prefix) (String.◌∷◌ c s) =
    let rest = strip_prefix prefix s in if same_number (code p) (code c) then rest else none

strip_rounds : ℕ → String → String → String
strip_rounds zero suffix s = s
strip_rounds (suc f) suffix s = elim (strip_suffix suffix s) [
  | none ↦ s
  | some t ↦ strip_rounds f suffix t
]

-- `str::trim_end_matches` for a suffix that is not empty: each round takes a character at least.
unfoldable pub trim_end_matches : String → String → String
unfolding strip_rounds strip_suffix
trim_end_matches suffix s = strip_rounds (suc (count s)) suffix s

last_of : String → List String → String
last_of a [] = a
last_of a (b ∷ rest) = last_of b rest

-- `rsplit('/').next()`.
unfoldable pub basename : String → String
unfolding last_of split_on
basename s = elim (split_on (λ c. same_number c b'/') s) [ [] ↦ s | a ∷ rest ↦ last_of a rest ]

-- `split(c).next()`: the text before the first such character, or all of it.
unfoldable pub before : ℕ → String → String
before d String.[] = ""
before d (String.◌∷◌ c s) =
    let rest = before d s in if same_number (code c) d then "" else String.◌∷◌ c rest

-- What follows the first such character.
unfoldable pub after : ℕ → String → Option String
after d String.[] = none
after d (String.◌∷◌ c s) = let rest = after d s in if same_number (code c) d then some s else rest

-- The first of `lines()`.
unfoldable pub first_or : String → List String → String
first_or d [] = d
first_or d (a ∷ rest) = a

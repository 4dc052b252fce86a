-- ===== src/Prelude/Text.antt =====
-- What the program uses of Rust's `str` and `format!`, over the native texts.
use Prim.Native.Nat.{min}
use Prim.Native.Char.{code}
use Prim.Native.String.{compare, slice, len}
use Prim.Native.String
use text.Mathlib.Text.{is_lt, find?}
use deptui.Prelude.Tests.{ltb, leb, same_number, if◌then◌else◌, is_some}
use Prim.Native.Nat.{ℕ, zero, suc, ◌/◌, ◌%◌}
use Prim.Native.String.{String}
use mathlib.Core.Bool.{Bool, false, ◌||◌, ◌&&◌}
use mathlib.Core.List.{List, [], ◌∷◌}
use text.Mathlib.Text.{◌==◌}

-- The pieces of a `format!`.
abbrev pub concat : List String → String
concat [] = ""
concat (s ∷ rest) = String.◌++◌ s (concat rest)

-- `[String]::join`.
abbrev pub join : String → List String → String
join sep [] = ""
join sep (s ∷ []) = s
join sep (s ∷ t ∷ rest) = String.◌++◌ s (String.◌++◌ sep (join sep (t ∷ rest)))

-- The order of a `BTreeMap<String, _>`.
abbrev pub text_lt : String → String → Bool
text_lt s t = is_lt (compare s t)

-- `str::contains`.
abbrev pub contains_text : String → String → Bool
contains_text s t = is_some (find? s t)

-- `&s[..s.len().min(12)]`, for a text of single-byte characters such as a commit hash.
pub short_rev : String → String
short_rev s = slice s 0 (min (len s) 12)

abbrev pub is_empty : String → Bool
is_empty s = s == ""

-- `Vec<String>::contains`.
abbrev pub member : String → List String → Bool
member a [] = false
member a (x ∷ xs) = x == a || member a xs

digit : ℕ → String
digit zero = "0"
digit (suc zero) = "1"
digit (suc (suc zero)) = "2"
digit (suc (suc (suc zero))) = "3"
digit (suc (suc (suc (suc zero)))) = "4"
digit (suc (suc (suc (suc (suc zero))))) = "5"
digit (suc (suc (suc (suc (suc (suc zero)))))) = "6"
digit (suc (suc (suc (suc (suc (suc (suc zero))))))) = "7"
digit (suc (suc (suc (suc (suc (suc (suc (suc zero)))))))) = "8"
digit _ = "9"

-- A number has fewer digits than its successor counts, so `suc n` rounds are enough.
digits_of : ℕ → ℕ → String
unfolding digit
digits_of zero n = ""
digits_of (suc f) n =
    let rest = digits_of f (n / 10) in
    if ltb n 10 then digit n else String.◌++◌ rest (digit (n % 10))

-- A number as `{}` prints it.
unfoldable pub decimal : ℕ → String
unfolding digits_of
decimal n = digits_of (suc n) n

-- A signed integer; `negsuc n` is -(n + 1).
pub data ℤ : Type 0 where
  pos : ℕ → ℤ
  negsuc : ℕ → ℤ

unfoldable pub show_int : ℤ → String
unfolding decimal
show_int (pos n) = decimal n
show_int (negsuc n) = String.◌++◌ "-" (decimal (suc n))

-- Unicode's White_Space, which `trim` and `split_whitespace` go by.
abbrev pub is_space : ℕ → Bool
is_space c =
    (leb 9 c && leb c 13)
    || same_number c 32
    || same_number c 0x85
    || same_number c 0xa0
    || same_number c 0x1680
    || (leb 0x2000 c && leb c 0x200a)
    || same_number c 0x2028
    || same_number c 0x2029
    || same_number c 0x202f
    || same_number c 0x205f
    || same_number c 0x3000

-- `str::trim_start`.
unfoldable pub trim_start : String → String
trim_start String.[] = ""
trim_start (String.◌∷◌ c s) =
    let rest = trim_start s in if is_space (code c) then rest else String.◌∷◌ c s

-- `str::trim_end`: what is left of the rest decides whether a white character ends the text.
unfoldable pub trim_end : String → String
trim_end String.[] = ""
trim_end (String.◌∷◌ c s) =
    let rest = trim_end s in if is_space (code c) && is_empty rest then "" else String.◌∷◌ c rest

-- `str::trim`.
unfoldable pub trim : String → String
unfolding trim_start trim_end
trim s = trim_end (trim_start s)

-- `str::split` on a set of characters: the pieces between them, empty ones included.
unfoldable pub split_on : (ℕ → Bool) → String → List String
split_on p String.[] = "" ∷ []
split_on p (String.◌∷◌ c s) = elim (split_on p s) [
  | [] ↦ "" ∷ []
  | piece ∷ rest ↦ if p (code c) then "" ∷ piece ∷ rest else String.◌∷◌ c piece ∷ rest
]

drop_empty : List String → List String
drop_empty [] = []
drop_empty (s ∷ rest) = let kept = drop_empty rest in if is_empty s then kept else s ∷ kept

-- `str::split_whitespace`.
unfoldable pub split_whitespace : String → List String
unfolding split_on drop_empty
split_whitespace s = drop_empty (split_on is_space s)

strip_cr : String → String
strip_cr String.[] = ""
strip_cr (String.◌∷◌ c s) =
    let rest = strip_cr s in if same_number (code c) 13 && is_empty s then "" else String.◌∷◌ c rest

drop_last_empty : List String → List String
drop_last_empty [] = []
drop_last_empty (s ∷ []) = if is_empty s then [] else s ∷ []
drop_last_empty (s ∷ t ∷ rest) = s ∷ drop_last_empty (t ∷ rest)

strip_all : List String → List String
unfolding strip_cr
strip_all [] = []
strip_all (s ∷ rest) = strip_cr s ∷ strip_all rest

-- `str::lines`: split at newlines, the last piece dropped if it is empty, a final `\r` of each too.
unfoldable pub lines : String → List String
unfolding split_on drop_last_empty strip_all
lines s = strip_all (drop_last_empty (split_on (λ c. same_number c 10) s))

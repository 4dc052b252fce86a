-- ===== src/Config/Durations.antt =====
-- crates/deptui-agent/src/config.rs: `parse_duration` on a duration that is written in parts.
use Prim.Native.Char.{Char, code}
use mathlib.Core.List.{append_assoc, append-nil}
use deptui.Prelude.{
  ℕ, ◌+◌, ◌-◌, ◌%◌, ◌*◌, ◌<◌, String, ◌≡◌, refl, ◌∙◌, sym, ap, true, false, Bool, Option, none,
  some, List, [], ◌∷◌, ◌++◌, map, ltb, arith, All, same_number, if◌then◌else◌,
}
use deptui.Prelude.{if-true, if-false}
use deptui.Prelude.Text.{trim}
use deptui.Prelude.Result.{Result, ok, err, try_result}
use deptui.Config.{
  u64_mod, is_digit, digits_value, parse_u64, unit_seconds, Scan, scan_char, scan_text, finish_scan,
  parse_duration, bad_duration,
}

-- A number of units, such as the `30m` of `1h30m`.
pub data TimeUnit : Type 0 where
  seconds minutes hours days : TimeUnit

abbrev pub letter : TimeUnit → Char
letter seconds = "s"
letter minutes = "m"
letter hours = "h"
letter days = "d"

abbrev pub worth : TimeUnit → ℕ
worth seconds = 1
worth minutes = 60
worth hours = 60 * 60
worth days = 24 * (60 * 60)

pub record Part : Type 0 where
  pub first : Char
  pub more : List Char
  pub unit : TimeUnit

abbrev pub digits : Part → List Char
digits p = p.first ∷ p.more

abbrev pub AllDigits : Part → Type 0
AllDigits p = All (λ c. is_digit (code c) ≡ true) (digits p)

-- The number that decimal digits stand for, after a number that stands before them.
abbrev pub value : ℕ → List Char → ℕ
value n [] = n
value n (c ∷ cs) = value (n * 10 + (code c - 48)) cs

abbrev pub spell : List Char → String → String
spell [] s = s
spell (c ∷ cs) s = String.◌∷◌ c (spell cs s)

abbrev pub written : List Part → String
written [] = ""
written (p ∷ ps) = spell (digits p) (String.◌∷◌ (letter p.unit) (written ps))

abbrev pub total : List Part → ℕ
total [] = 0
total (p ∷ ps) = value 0 (digits p) * worth p.unit + total ps

digits_value-value : (n : ℕ) (cs : List Char) → digits_value n (map code cs) ≡ value n cs
unfolding digits_value
digits_value-value n [] = refl
digits_value-value n (c ∷ cs) = digits_value-value (n * 10 + (code c - 48)) cs

scan_char-digit :
    (s : String) (c : ℕ) (t : Scan)
    → is_digit c ≡ true
    → scan_char s c t ≡ ok (record t { num = t.num ++ c ∷ [] })
unfolding scan_char
scan_char-digit s c t h = if-true (is_digit c) _ _ h

-- A character that is read leaves the rest of the text to be read.
scan_text-step :
    (s : String) (c : Char) (rest : String) (t u : Scan)
    → scan_char s (code c) t ≡ ok u
    → scan_text s (String.◌∷◌ c rest) t ≡ scan_text s rest u
unfolding scan_text
scan_text-step s c rest t u e =
    ap (λ r. elim r as (λ x. Result Scan) [ err e ↦ err e | ok t' ↦ scan_text s rest t' ]) e

-- Digits are kept for the unit that follows them.
scan_text-spell :
    (s : String) (cs : List Char) (rest : String) (t : Scan)
    → All (λ c. is_digit (code c) ≡ true) cs
    → scan_text s (spell cs rest) t ≡ scan_text s rest (record t { num = t.num ++ map code cs })
scan_text-spell s [] rest t h =
    ap (λ n. scan_text s rest (record t { num = n })) (sym (append-nil t.num))
scan_text-spell s (c ∷ cs) rest t h =
    scan_text-step s c (spell cs rest) t _ (scan_char-digit s (code c) t h.0)
    ∙ scan_text-spell s cs rest (record t { num = t.num ++ code c ∷ [] }) h.1
    ∙ ap (λ n. scan_text s rest (record t { num = n }))
        (append_assoc t.num (code c ∷ []) (map code cs))

value-worth : (u : TimeUnit) (n m : ℕ) → n * worth u + m < u64_mod → n < u64_mod
value-worth seconds n m h = omega arith
value-worth minutes n m h = omega arith
value-worth hours n m h = omega arith
value-worth days n m h = omega arith

module _ (s : String) (n : ℕ) (t : Scan) where
  -- The sum is right where it does not reach 2 ^ 64.
  summed :
      (k : ℕ)
      → t.total + n * k < u64_mod
      → (t.total + (n * k) % u64_mod) % u64_mod ≡ t.total + n * k
  summed k h = omega arith

  added : ℕ → Result Scan
  added sum = ok (record { total = sum; num = []; saw_unit = true })

  counted :
      (o : Option ℕ) (k : ℕ)
      → o ≡ some n
      → t.total + n * k < u64_mod
      → (elim o as (λ x. Result Scan) [
        | none ↦ err (bad_duration s "")
        | some m ↦
            ok (record {
              total = (t.total + (m * k) % u64_mod) % u64_mod;
              num = [];
              saw_unit = true;
            })
      ])
        ≡ added (t.total + n * k)
  unfolding added
  counted o k e h = rw e (ap added (summed k h))

  scan_char-unit :
      (u : TimeUnit)
      → parse_u64 t.num ≡ some n
      → t.total + n * worth u < u64_mod
      → scan_char s (code (letter u)) t ≡ added (t.total + n * worth u)
  unfolding scan_char unit_seconds
  scan_char-unit seconds e h = counted (parse_u64 t.num) 1 e h
  scan_char-unit minutes e h = counted (parse_u64 t.num) 60 e h
  scan_char-unit hours e h = counted (parse_u64 t.num) 3600 e h
  scan_char-unit days e h = counted (parse_u64 t.num) 86400 e h

parse_u64-value :
    (p : Part)
    → value 0 (digits p) < u64_mod
    → parse_u64 (map code (digits p)) ≡ some (value 0 (digits p))
unfolding parse_u64
parse_u64-value p h =
    ap (λ n. if ltb n u64_mod then some n else none) (digits_value-value 0 (digits p))
    ∙ if-true (ltb (value 0 (digits p)) u64_mod) _ _ (ground arith)

scan_text-part :
    (s : String) (p : Part) (rest : String) (before m : ℕ) (seen : Bool)
    → AllDigits p
    → before + (value 0 (digits p) * worth p.unit + m) < u64_mod
    → scan_text s
        (spell (digits p) (String.◌∷◌ (letter p.unit) rest))
        (record { total = before; num = []; saw_unit = seen })
      ≡ scan_text s rest
          (record { total = before + value 0 (digits p) * worth p.unit; num = []; saw_unit = true })
unfolding added
scan_text-part s p rest before m seen h fits =
    scan_text-spell s (digits p) _ (record { total = before; num = []; saw_unit = seen }) h
    ∙ scan_text-step s (letter p.unit) rest _ _ (
        scan_char-unit s (value 0 (digits p))
          (record { total = before; num = map code (digits p); saw_unit = seen }) p.unit
          (parse_u64-value p (value-worth p.unit _ m (omega arith))) (omega arith))

-- The scan of parts adds what they are worth to the sum.
scan_text-written :
    (s : String) (ps : List Part) (before : ℕ)
    → All AllDigits ps
    → before + total ps < u64_mod
    → scan_text s (written ps) (record { total = before; num = []; saw_unit = true })
      ≡ ok (record { total = before + total ps; num = []; saw_unit = true })
unfolding scan_text
scan_text-written s [] before h fits =
    ap (λ n. ok (record { total = n; num = []; saw_unit = true })) (omega arith)
scan_text-written s (p ∷ ps) before h fits =
    scan_text-part s p (written ps) before (total ps) true h.0 fits
    ∙ scan_text-written s ps (before + value 0 (digits p) * worth p.unit) h.1 (omega arith)
    ∙ ap (λ n. ok (record { total = n; num = []; saw_unit = true })) (omega arith)

-- A text that, trimmed, is a row of one or more parts, each of one or more digits and one of the
-- letters `s`, `m`, `h` and `d`, is read as the sum of the parts in seconds, by decimal value and
-- the unit's worth, if that sum is neither zero nor beyond a `u64`.
pub parse_duration-total :
    (s : String) (p : Part) (ps : List Part)
    → trim s ≡ written (p ∷ ps)
    → All AllDigits (p ∷ ps)
    → 0 < total (p ∷ ps)
    → total (p ∷ ps) < u64_mod
    → parse_duration s ≡ ok (total (p ∷ ps))
unfolding parse_duration finish_scan
parse_duration-total s p ps trimmed h some_time fits =
    ap (λ r. try_result r (finish_scan s))
      (ap (λ text. scan_text s text (record { total = 0; num = []; saw_unit = false })) trimmed
        ∙ scan_text-part s p (written ps) 0 (total ps) false h.0 (omega arith)
        ∙ scan_text-written s ps (0 + value 0 (digits p) * worth p.unit) h.1 (omega arith))
    ∙ if-false (same_number (0 + value 0 (digits p) * worth p.unit + total ps) 0) _ _ (ground arith)
    ∙ ap ok (omega arith)

-- ===== src/Tui/Selection.antt =====
-- crates/deptui/src/app.rs and joblog.rs: the text of a visual selection, described position by
-- position, and what `yank_visual` cuts out of the lines.
use Prim.Native.Nat.{min}
use Prim.Native.String
use text.Mathlib.TextLemmas.{append-nil, append_assoc}
use deptui.Prelude.{
  ℕ, suc, zero, ◌+◌, ◌-◌, ◌≤◌, ◌<◌, ◌≡◌, refl, ◌∙◌, sym, ap, String, Bool, true, ◌&&◌, ◌||◌, Option,
  none, some, List, [], ◌∷◌, map, length, leb, ltb, same_number, arith, if◌then◌else◌, map_option,
}
use deptui.Prelude.{if-true, if-false}
use deptui.Prelude.Text.{concat, join}
use deptui.Prelude.Vectors.{take, drop, is_nil}
use deptui.Tui.Joblog.{
  LogEntry, VisualMode, VisualSel, char, line, ordered, normalized, char_selection_bounds,
}
use deptui.Tui.Search.{text_at}
use deptui.Tui.Visual.{chars, of_chars, slice_line, yank_text, copied_text}

-- The elements at the positions of which the test holds, each with its position.
abbrev pub chosen : {A B : Type 0} → (ℕ → Bool) → (ℕ → A → B) → List A → List B
chosen p f [] = []
chosen p f (x ∷ xs) =
    let rest = chosen (λ j. p (suc j)) (λ j. f (suc j)) xs in if p 0 then f 0 x ∷ rest else rest

-- Does the position, a line and a column, stand at the other or before it?
abbrev pub at_most : ℕ × ℕ → ℕ × ℕ → Bool
at_most (al, ac) (bl, bc) = ltb al bl || (same_number al bl && leb ac bc)

-- Is the position between the two ends of the selection, both included, whichever comes first?
abbrev pub selects : VisualSel → ℕ × ℕ → Bool
selects sel p =
    (at_most sel.anchor p && at_most p sel.cursor) || (at_most sel.cursor p && at_most p sel.anchor)

abbrev pub selects_line : VisualSel → ℕ → Bool
selects_line sel k =
    (leb sel.anchor.0 k && leb k sel.cursor.0) || (leb sel.cursor.0 k && leb k sel.anchor.0)

-- What is selected of the `k`-th line shown, by the mode.
abbrev pub selected_part : VisualMode → VisualSel → List LogEntry → ℕ → ℕ → String
selected_part line sel log k i = text_at log i
selected_part char sel log k i =
    of_chars (chosen (λ c. selects sel (k, c)) (λ j x. x) (chars (text_at log i)))

abbrev pub lined : VisualMode → List String → String
lined line parts = concat (map (λ t. String.◌++◌ t "\n") parts)
lined char parts = join "\n" parts

-- The selected text: the selected part of each selected line, in the order in which they are shown.
abbrev pub selected_text : VisualSel → List LogEntry → List ℕ → String
selected_text sel log shown =
    lined sel.mode (chosen (selects_line sel) (selected_part sel.mode sel log) shown)

-- Each element with its position, from `k` on.
abbrev numbered : {A B : Type 0} → (ℕ → A → B) → ℕ → List A → List B
numbered f k [] = []
numbered f k (x ∷ xs) = f k x ∷ numbered f (suc k) xs

module _ {A B : Type 0} where
  numbered-suc :
      (f : ℕ → A → B) (k : ℕ) (xs : List A) → numbered (λ j. f (suc j)) k xs ≡ numbered f (suc k) xs
  numbered-suc f k [] = refl
  numbered-suc f k (x ∷ xs) = ap (λ ys. f (suc k) x ∷ ys) (numbered-suc f (suc k) xs)

  drop-nil : (f : ℕ → A → B) (s k : ℕ) → numbered f k (drop s []) ≡ []
  drop-nil f zero k = refl
  drop-nil f (suc s) k = refl

  -- The elements of a range are those that are left when the ends are cut off.
  chosen-range :
      (p : ℕ → Bool) (f : ℕ → A → B) (s e : ℕ) (xs : List A)
      → ((j : ℕ) → j < length xs → p j ≡ (leb s j && ltb j e))
      → chosen p f xs ≡ numbered f s (drop s (take e xs))
  chosen-range p f s zero [] h = sym (drop-nil f s s)
  chosen-range p f s (suc e) [] h = sym (drop-nil f s s)
  chosen-range p f s zero (x ∷ xs) h =
      if-false (p 0) _ _ (h 0 (omega arith) ∙ ground arith)
      ∙ chosen-range (λ j. p (suc j)) (λ j. f (suc j)) s zero xs
          (λ j l. h (suc j) (omega arith) ∙ ground arith)
      ∙ drop-nil (λ j. f (suc j)) s s
      ∙ sym (drop-nil f s s)
  chosen-range p f zero (suc e) (x ∷ xs) h =
      if-true (p 0) _ _ (h 0 (omega arith) ∙ ground arith)
      ∙ ap (λ l. f 0 x ∷ l)
          (chosen-range (λ j. p (suc j)) (λ j. f (suc j)) zero e xs
              (λ j l. h (suc j) (omega arith) ∙ ground arith)
            ∙ numbered-suc f zero (take e xs))
  chosen-range p f (suc s) (suc e) (x ∷ xs) h =
      if-false (p 0) _ _ (h 0 (omega arith) ∙ ground arith)
      ∙ chosen-range (λ j. p (suc j)) (λ j. f (suc j)) s e xs
          (λ j l. h (suc j) (omega arith) ∙ ground arith)
      ∙ numbered-suc f s (drop s (take e xs))

take-nil : {A : Type 0} (n : ℕ) → take {A = A} n [] ≡ []
take-nil zero = refl
take-nil (suc n) = refl

take-drop : {A : Type 0} (m s : ℕ) (xs : List A) → take m (drop s xs) ≡ drop s (take (s + m) xs)
take-drop m zero xs = ap (λ n. take n xs) (omega arith)
take-drop m (suc s) [] = take-nil m ∙ sym (ap (drop (suc s)) (take-nil (suc s + m)))
take-drop m (suc s) (x ∷ xs) =
    let sum : suc (s + m) ≡ suc s + m = omega arith in
    take-drop m s xs ∙ ap (λ n. drop (suc s) (take n (x ∷ xs))) sum

numbered-same : {A : Type 0} (k : ℕ) (xs : List A) → numbered (λ j x. x) k xs ≡ xs
numbered-same k [] = refl
numbered-same k (x ∷ xs) = ap (λ ys. x ∷ ys) (numbered-same (suc k) xs)

-- What is selected, by the ends in their order.
selects-ordered :
    (sel : VisualSel) (k c : ℕ)
    → let n = normalized sel in selects sel (k, c) ≡ (at_most n.0 (k, c) && at_most (k, c) n.1)
unfolding normalized ordered
selects-ordered sel k c = ground arith

selects_line-ordered :
    (sel : VisualSel) (k : ℕ)
    → let n = normalized sel in selects_line sel k ≡ (leb n.0.0 k && leb k n.1.0)
unfolding normalized ordered
selects_line-ordered sel k = ground arith

normalized-ordered : (sel : VisualSel) → let n = normalized sel in at_most n.0 n.1 ≡ true
unfolding normalized ordered
normalized-ordered sel = ground arith

-- The columns that are cut out of a selected line are those that are selected.
bounds-selected :
    (n idx sl sc el ec j : ℕ)
    → at_most (sl, sc) (el, ec) ≡ true
    → sl ≤ idx
    → idx ≤ el
    → j < n
    → let b = char_selection_bounds n idx sl sc el ec in
      (at_most (sl, sc) (idx, j) && at_most (idx, j) (el, ec)) ≡ (leb b.0 j && ltb j b.1)
unfolding char_selection_bounds
bounds-selected n idx sl sc el ec j h low high l = ground arith

bounds-within :
    (n idx sl sc el ec : ℕ)
    → at_most (sl, sc) (el, ec) ≡ true
    → let b = char_selection_bounds n idx sl sc el ec in leb b.0 b.1 && leb b.1 n ≡ true
unfolding char_selection_bounds
bounds-within n idx sl sc el ec h = ground arith

joined :
    (o r : Option String) (f : String → String → String) (x y : String)
    → o ≡ some x
    → r ≡ some y
    → (elim o [ none ↦ none | some t ↦ map_option (f t) r ]) ≡ some (f x y)
joined o r f x y e h = rw (e, h) refl

-- What `yank_text` puts between the parts is what `join` does.
joined_parts :
    (t : String) (f : ℕ → ℕ → String) (k : ℕ) (rest : List ℕ)
    → concat (t ∷ (if is_nil rest then "" else "\n") ∷ lined char (numbered f k rest) ∷ [])
      ≡ lined char (t ∷ numbered f k rest)
joined_parts t f k [] = append-nil t
joined_parts t f k (i ∷ rest) =
    ap (λ s. String.◌++◌ t (String.◌++◌ "\n" s)) (append-nil (lined char (numbered f k (i ∷ rest))))

lined_parts :
    (t more : String) → concat (t ∷ "\n" ∷ more ∷ []) ≡ String.◌++◌ (String.◌++◌ t "\n") more
lined_parts t more =
    ap (λ s. String.◌++◌ t (String.◌++◌ "\n" s)) (append-nil more) ∙ sym (append_assoc t "\n" more)

module _ (sel : VisualSel) where
  slice_line-selected :
      (text : String) (k : ℕ)
      → (normalized sel).0.0 ≤ k
      → k ≤ (normalized sel).1.0
      → slice_line text k (normalized sel).0 (normalized sel).1
        ≡ some (of_chars (chosen (λ c. selects sel (k, c)) (λ j x. x) (chars text)))
  unfolding slice_line
  slice_line-selected text k low high =
      let ((sl, sc), (el, ec)) = normalized sel in
      let (s, e) = char_selection_bounds (length (chars text)) k sl sc el ec in
      if-true _ _ _ (bounds-within _ k sl sc el ec (normalized-ordered sel))
      ∙ ap (λ cs. some (of_chars cs))
          (sym (
            chosen-range (λ c. selects sel (k, c)) (λ j x. x) s e (chars text)
              (λ j l.
                selects-ordered sel k j
                ∙ bounds-selected (length (chars text)) k sl sc el ec j (normalized-ordered sel) low
                    high l)
            ∙ numbered-same s (drop s (take e (chars text)))))

  yank_text-selected :
      (mode : VisualMode) (log : List LogEntry) (k : ℕ) (lines : List ℕ)
      → (normalized sel).0.0 ≤ k
      → k + length lines ≤ suc (normalized sel).1.0
      → yank_text mode log (normalized sel).0 (normalized sel).1 k lines
        ≡ some (lined mode (numbered (selected_part mode sel log) k lines))
  unfolding yank_text
  yank_text-selected line log k [] low high = refl
  yank_text-selected char log k [] low high = refl
  yank_text-selected line log k (i ∷ rest) low high =
      ap (map_option _) (yank_text-selected line log (suc k) rest (omega arith) (omega arith))
      ∙ ap some (lined_parts (text_at log i) _)
  yank_text-selected char log k (i ∷ rest) low high =
      joined _ _ _ _ _ (slice_line-selected (text_at log i) k low (omega arith))
        (yank_text-selected char log (suc k) rest (omega arith) (omega arith))
      ∙ ap some
          (joined_parts (selected_part char sel log k i) (selected_part char sel log) (suc k) rest)

-- A line that is shown is not moved by the clamp.
min-shown : (i n : ℕ) → i < n → min i (n - 1) ≡ i
min-shown i n h = ground arith

normalized-lt :
    (sel : VisualSel) (n : ℕ)
    → sel.anchor.0 < n
    → sel.cursor.0 < n
    → let r = normalized sel in (r.0.0 < n) × (r.1.0 < n) × (r.0.0 ≤ r.1.0)
unfolding normalized ordered
normalized-lt sel n h k = ground arith

length-take : {A : Type 0} (n : ℕ) (xs : List A) → length (take n xs) ≤ n
length-take zero xs = omega arith
length-take (suc n) [] = omega arith
length-take (suc n) (x ∷ xs) = omega (arith, length-take n xs)

-- Between lines that are shown, the copy takes exactly the selected text, and no slice panics.
pub copied_text-selected :
    (sel : VisualSel) (log : List LogEntry) (shown : List ℕ)
    → sel.anchor.0 < length shown
    → sel.cursor.0 < length shown
    → (copied_text sel log shown).1 ≡ some (selected_text sel log shown)
unfolding copied_text
copied_text-selected sel log shown h k =
    let (low, high, order) = normalized-lt sel (length shown) h k in
    let ((first, from), (last, to)) = normalized sel in
    let copied : ℕ → ℕ → Option String =
      λ f l. yank_text sel.mode log (f, from) (l, to) f (take ((l - f) + 1) (drop f shown)) in
    let lines : List ℕ = take ((last - first) + 1) (drop first shown) in
    let part : ℕ → ℕ → String = selected_part sel.mode sel log in
    let ends : first + ((last - first) + 1) ≡ suc last = omega arith in
    let range : lines ≡ drop first (take (suc last) shown) =
      take-drop ((last - first) + 1) first shown ∙ ap (λ n. drop first (take n shown)) ends in
    ap (λ f. copied f (min last (length shown - 1))) (min-shown first (length shown) low)
    ∙ ap (copied first) (min-shown last (length shown) high)
    ∙ yank_text-selected sel sel.mode log first lines (omega arith)
        (omega (arith, length-take ((last - first) + 1) (drop first shown)))
    ∙ ap (λ ys. some (lined sel.mode ys))
        (ap (numbered part first) range
          ∙ sym (
              chosen-range (selects_line sel) part first (suc last) shown
                (λ j l. selects_line-ordered sel j ∙ ground arith)))

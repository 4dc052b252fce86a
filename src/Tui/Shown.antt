-- ===== src/Tui/Shown.antt =====
-- crates/deptui/src/joblog.rs and app.rs: the lines of the job log that are shown, and what is copied
-- of them.
use deptui.Prelude.{
  ℕ, suc, ◌<◌, ◌≡◌, refl, ◌∙◌, ap, String, Bool, true, false, Option, none, some, List, [], ◌∷◌,
  map, length, arith, filter_by, ◌==◌, if◌then◌else◌,
}
use deptui.Prelude.Text.{member}
use deptui.Prelude.Vectors.{get_elem?}
use deptui.Tui.{App, World, yanked, panicked, emit}
use deptui.Tui.Matches.{some-case}
use deptui.Tui.Joblog.{LogEntry, VisualSel, active_hosts, shows, indices_from, filtered_indices}
use deptui.Tui.Log.{push_log, push_log_tagged, push_log_line, set_main_log}
use deptui.Tui.Search.{filtered_for_job_log}
use deptui.Tui.Selection.{selected_text, copied_text-selected}
use deptui.Tui.Visual.{copied_text, report_yank, yank_visual}

indices-suc :
    (i : ℕ) (active : List String) (log : List LogEntry)
    → indices_from (suc i) active log ≡ map suc (indices_from i active log)
unfolding indices_from
indices-suc i active [] = refl
indices-suc i active (e ∷ log) = go (shows active e) (indices-suc (suc i) active log)
  where
    go :
        (b : Bool)
        → indices_from (suc (suc i)) active log ≡ map suc (indices_from (suc i) active log)
        → (if b
            then suc i ∷ indices_from (suc (suc i)) active log
            else indices_from (suc (suc i)) active log)
          ≡ map suc
              (if b then i ∷ indices_from (suc i) active log else indices_from (suc i) active log)
    go true same = ap (λ xs. suc i ∷ xs) same
    go false same = same

-- The entries behind the first one.
entries-suc :
    (e : LogEntry) (log : List LogEntry) (is : List ℕ)
    → map (get_elem? (e ∷ log)) (map suc is) ≡ map (get_elem? log) is
entries-suc e log [] = refl
entries-suc e log (i ∷ is) = ap (λ xs. get_elem? log i ∷ xs) (entries-suc e log is)

entries-shown :
    (active : List String) (log : List LogEntry)
    → map (get_elem? log) (indices_from 0 active log) ≡ map some (filter_by (shows active) log)
unfolding indices_from
entries-shown active [] = refl
entries-shown active (e ∷ log) = go (shows active e) (
    ap (map (get_elem? (e ∷ log))) (indices-suc 0 active log)
    ∙ entries-suc e log (indices_from 0 active log)
    ∙ entries-shown active log)
  where
    go :
        (b : Bool)
        → map (get_elem? (e ∷ log)) (indices_from 1 active log)
          ≡ map some (filter_by (shows active) log)
        → map
            (get_elem? (e ∷ log))
            (if b then 0 ∷ indices_from 1 active log else indices_from 1 active log)
          ≡ map some (elim b [
            | true ↦ e ∷ filter_by (shows active) log
            | false ↦ filter_by (shows active) log
          ])
    go true same = ap (λ xs. some e ∷ xs) same
    go false same = same

-- Is the entry one of a marked host, or of the selected one where none is marked, or of no host?
abbrev pub visible : List String → Option String → LogEntry → Bool
visible marked selected e = elim e.host [
  | none ↦ true
  | some h ↦ elim marked [
    | [] ↦ elim selected [ none ↦ false | some name ↦ name == h ]
    | m ∷ rest ↦ member h (m ∷ rest)
  ]
]

shows-visible :
    (marked : List String) (selected : Option String) (e : LogEntry)
    → shows (active_hosts marked selected) e ≡ visible marked selected e
unfolding shows active_hosts
shows-visible marked selected e = of_host marked selected e.host
  where
    of_host :
        (marked : List String) (selected : Option String) (host : Option String)
        → (elim host [ none ↦ true | some h ↦ member h (active_hosts marked selected) ])
          ≡ (elim host [
            | none ↦ true
            | some h ↦ elim marked [
              | [] ↦ elim selected [ none ↦ false | some name ↦ name == h ]
              | m ∷ rest ↦ member h (m ∷ rest)
            ]
          ])
    of_host marked selected none = refl
    of_host [] none (some h) = refl
    of_host [] (some name) (some h) = ground arith
    of_host (m ∷ rest) none (some h) = refl
    of_host (m ∷ rest) (some name) (some h) = refl

-- Two tests that agree keep the same entries.
filter-same :
    (p q : LogEntry → Bool)
    → ((e : LogEntry) → p e ≡ q e)
    → (log : List LogEntry) → filter_by p log ≡ filter_by q log
filter-same p q h [] = refl
filter-same p q h (e ∷ log) =
    ap
      (λ (b : Bool). elim b as (λ x. List LogEntry) [
        | true ↦ e ∷ filter_by p log
        | false ↦ filter_by p log
      ])
      (h e)
    ∙ ap
        (λ (rest : List LogEntry). elim (q e) as (λ x. List LogEntry) [
          | true ↦ e ∷ rest
          | false ↦ rest
        ])
        (filter-same p q h log)

-- The indices of the job log's filter denote exactly the entries that an independent test finds
-- visible, in the log's order, and each lies within the log; an entry is visible if it carries no
-- host or a marked one, or the selected one where none is marked.
pub filtered_indices-shown :
    (log : List LogEntry) (marked : List String) (selected : Option String)
    → map (get_elem? log) (filtered_indices log marked selected)
      ≡ map some (filter_by (visible marked selected) log)
unfolding filtered_indices
filtered_indices-shown log marked selected =
    entries-shown (active_hosts marked selected) log
    ∙ ap (map some) (filter-same _ _ (shows-visible marked selected) log)

-- The lines of the two ends of a selection are shown.
abbrev pub IsShown : VisualSel → App → Type 0
IsShown sel a = let n = length (filtered_for_job_log a) in (sel.anchor.0 < n) × (sel.cursor.0 < n)

report-effects : (b : Bool) (total : ℕ) (a : App) → (report_yank b total a).effects ≡ a.effects
unfolding report_yank push_log push_log_tagged push_log_line set_main_log
report-effects true total a = refl
report-effects false total a = refl

-- What is yanked of lines that are shown.
module _ (w : World) (a : App) (sel : VisualSel) where
  abbrev told : Option String → ℕ → App
  told text total = elim text [
    | none ↦ emit panicked (record a { visual_sel = none })
    | some t ↦
        report_yank (w.clipboard a.effects t) total
          (emit (yanked t) (record a { visual_sel = none }))
  ]

  told-yanked :
      (o : Option String) (t : String) (total : ℕ)
      → o ≡ some t
      → (told o total).effects ≡ yanked t ∷ a.effects
  unfolding emit
  told-yanked none t total e = cc
  told-yanked (some x) t total e =
      let same : x ≡ t = cc in report-effects _ total _ ∙ ap (λ y. yanked y ∷ a.effects) same

  yanked_lines :
      (shown : List ℕ)
      → sel.anchor.0 < length shown
      → sel.cursor.0 < length shown
      → (elim shown as (λ x. App) [
        | [] ↦ emit panicked (record a { visual_sel = none })
        | i ∷ rest ↦ told (copied_text sel a.log (i ∷ rest)).1 (copied_text sel a.log (i ∷ rest)).0
      ]).effects
        ≡ yanked (selected_text sel a.log shown) ∷ a.effects
  yanked_lines [] h k = let bad : ⊥ = omega arith in elim bad [ ]
  yanked_lines (i ∷ rest) h k = told-yanked _ _ _ (copied_text-selected sel a.log (i ∷ rest) h k)

-- When both ends of the visual selection lie on lines that are shown, the copy takes its slices
-- within the lines, whichever end comes first, and hands to the clipboard, once, the selected text
-- of the lines shown: in line mode each line from the one end to the other, whole and with a line
-- break behind it; in character mode, of each of these lines, the characters whose positions lie in
-- the selection, both ends included, with line breaks between.
pub yank_visual-yanked :
    (w : World) (a : App) (sel : VisualSel)
    → a.visual_sel ≡ some sel
    → IsShown sel a
    → (yank_visual w a).effects
      ≡ yanked (selected_text sel a.log (filtered_for_job_log a)) ∷ a.effects
unfolding yank_visual
yank_visual-yanked w a sel visual (h, k) =
    ap (λ b. b.effects) (some-case a.visual_sel a _ sel visual) ∙ yanked_lines w a sel _ h k

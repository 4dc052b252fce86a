-- ===== src/Tui/Visual.antt =====
-- crates/deptui/src/app.rs: the visual selection, its copy, and the ends of the log.
use Prim.Native.Nat.{min, max}
use Prim.Native.String.{count}
use Prim.Native.Char.{Char}
use deptui.Prelude.{
  ℕ, ℤ, pos, negsuc, zero, suc, ◌+◌, ◌-◌, String, Bool, true, false, ◌&&◌, Option, none, some, List,
  [], ◌∷◌, length, ltb, leb, map_option, same_number, if◌then◌else◌, is_some, unwrap_or,
}
use deptui.Prelude.Text.{concat, decimal}
use deptui.Prelude.Vectors.{get_elem?, take, drop, is_nil, offset, at_least_zero}
use deptui.Tui.{App, FocusPane, World, toggles, hosts, job_log, commands, emit, yanked, panicked}
use deptui.Tui.Joblog.{
  LogEntry, VisualMode, VisualSel, char, line, normalized, char_selection_bounds,
}
use deptui.Tui.Log.{push_log}
use deptui.Tui.Search.{filtered_for_job_log, text_at}

unfoldable pub scroll_job_log : ℤ → App → App
unfolding offset at_least_zero filtered_for_job_log
scroll_job_log delta a = record a {
  job_log_scroll =
      min (at_least_zero (offset a.job_log_scroll delta)) (length (filtered_for_job_log a) - 1);
}

unfoldable pub enter_visual_mode : VisualMode → App → App
unfolding filtered_for_job_log
enter_visual_mode mode a = elim (filtered_for_job_log a) [
  | [] ↦ a
  | _ ∷ rest ↦
      let at = length rest - a.job_log_scroll in
      record a { visual_sel = some (record { mode = mode; anchor = (at, 0); cursor = (at, 0) }) }
]

is_zero : ℤ → Bool
is_zero (pos zero) = true
is_zero (pos (suc n)) = false
is_zero (negsuc n) = false

-- The column on a line of so many characters.
unfoldable pub new_column : VisualMode → ℤ → ℕ → ℕ → ℕ
unfolding is_zero offset at_least_zero
new_column line col_delta col chars = 0
new_column char col_delta col chars =
    if is_zero col_delta
    then min col (chars - 1)
    else min (at_least_zero (offset col col_delta)) (chars - 1)

-- The scroll that keeps the cursor in view.
unfoldable pub edge_scroll : ℕ → ℕ → ℕ → ℕ
edge_scroll from_tail top_offset scroll =
    let top = max top_offset scroll in
    if ltb top from_tail
    then scroll + (from_tail - top)
    else if ltb from_tail scroll
    then from_tail
    else scroll

unfoldable pub move_cursor : ℤ → ℤ → List ℕ → VisualSel → App → App
unfolding new_column edge_scroll text_at offset at_least_zero
move_cursor line_delta col_delta filtered sel a =
    let at = min (at_least_zero (offset sel.cursor.0 line_delta)) (length filtered - 1) in
    let idx = unwrap_or (get_elem? filtered at) 0 in
    let col = new_column sel.mode col_delta sel.cursor.1 (count (text_at a.log idx)) in
    record a {
      job_log_scroll =
          edge_scroll (length filtered - (1 + at)) a.job_log_top_offset a.job_log_scroll;
      visual_sel = some (record sel { cursor = (at, col) });
    }

unfoldable pub visual_move_cursor : ℤ → ℤ → App → App
unfolding move_cursor filtered_for_job_log
visual_move_cursor line_delta col_delta a = elim (filtered_for_job_log a) [
  | [] ↦ a
  | i ∷ filtered ↦ elim a.visual_sel [
    | none ↦ a
    | some sel ↦ move_cursor line_delta col_delta (i ∷ filtered) sel a
  ]
]

unfoldable pub chars : String → List Char
chars String.[] = []
chars (String.◌∷◌ c s) = c ∷ chars s

unfoldable pub of_chars : List Char → String
of_chars [] = ""
of_chars (c ∷ cs) = String.◌∷◌ c (of_chars cs)

-- What is copied of one line of a selection in characters; a slice that ends before it starts, or
-- beyond the line, panics.
unfoldable pub slice_line : String → ℕ → ℕ × ℕ → ℕ × ℕ → Option String
unfolding char_selection_bounds chars of_chars
slice_line text idx start finish =
    let (s, e) =
      char_selection_bounds (length (chars text)) idx start.0 start.1 finish.0 finish.1 in
    if leb s e && leb e (length (chars text))
    then some (of_chars (drop s (take e (chars text))))
    else none

-- The lines of the selection, from the `idx`-th line shown on.
unfoldable pub yank_text : VisualMode → List LogEntry → ℕ × ℕ → ℕ × ℕ → ℕ → List ℕ → Option String
unfolding slice_line text_at
yank_text mode log start finish idx [] = some ""
yank_text line log start finish idx (i ∷ rest) =
    map_option (λ more. concat (text_at log i ∷ "\n" ∷ more ∷ []))
      (yank_text line log start finish (suc idx) rest)
yank_text char log start finish idx (i ∷ rest) =
    let later = yank_text char log start finish (suc idx) rest in
    elim (slice_line (text_at log i) idx start finish) [
      | none ↦ none
      | some text ↦
          map_option (λ more. concat (text ∷ (if is_nil rest then "" else "\n") ∷ more ∷ [])) later
    ]

unfoldable pub copied_text : VisualSel → List LogEntry → List ℕ → ℕ × Option String
unfolding yank_text normalized
copied_text sel log filtered =
    let (start, finish) = normalized sel in
    let first = min start.0 (length filtered - 1) in
    let last = min finish.0 (length filtered - 1) in
    let lines = take ((last - first) + 1) (drop first filtered) in
    (last - first + 1, yank_text sel.mode log (first, start.1) (last, finish.1) first lines)

unfoldable pub report_yank : Bool → ℕ → App → App
unfolding push_log decimal
report_yank true total a =
    push_log
      (concat (
        "→ yanked "
        ∷ decimal total
        ∷ " line"
        ∷ (if same_number total 1 then "" else "s")
        ∷ " to clipboard"
        ∷ []))
      false a
report_yank false total a =
    push_log "→ yank: no clipboard tool found (install wl-copy, xclip, or xsel)" false a

-- The slice of an empty list of lines panics, too.
unfoldable pub yank_visual : World → App → App
unfolding copied_text report_yank filtered_for_job_log emit
yank_visual w a = elim a.visual_sel [
  | none ↦ a
  | some sel ↦
      let b = record a { visual_sel = none } in
      elim (filtered_for_job_log a) [
        | [] ↦ emit panicked b
        | i ∷ filtered ↦
            let (total, text) = copied_text sel a.log (i ∷ filtered) in
            elim text [
              | none ↦ emit panicked b
              | some t ↦ report_yank (w.clipboard a.effects t) total (emit (yanked t) b)
            ]
      ]
]

unfoldable pub jump_to_top : App → App
unfolding filtered_for_job_log
jump_to_top a = elim a.focus [
  | hosts ↦ elim a.nodes [ [] ↦ a | _ ∷ _ ↦ record a { selected = 0 } ]
  | job_log ↦ record a { job_log_scroll = length (filtered_for_job_log a) - 1 }
  | toggles ↦ record a { toggle_index = 0 }
  | commands ↦ record a { command_index = 0 }
]

is_job_log : FocusPane → Bool
is_job_log job_log = true
is_job_log hosts = false
is_job_log toggles = false
is_job_log commands = false

unfoldable pub snap_to_tail : App → App
unfolding is_job_log
snap_to_tail a =
    if is_some a.visual_sel
    then a
    else if is_job_log a.focus
    then record a { job_log_scroll = 0 }
    else a

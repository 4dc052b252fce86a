-- ===== src/Tui/Joblog.antt =====
-- crates/deptui/src/joblog.rs: which entries the job log shows, and how a selection maps to columns.
use Prim.Native.Nat.{min}
use deptui.Prelude.{
  ℕ, suc, ◌+◌, String, Bool, true, ◌||◌, ◌&&◌, Option, none, some, List, [], ◌∷◌, ltb, leb,
  same_number, if◌then◌else◌,
}
use deptui.Prelude.Text.{member}
use deptui.Remote.Status.{LogKind}

pub record LogEntry : Type 0 where
  pub text : String
  pub is_err : Bool
  pub host : Option String
  pub kind : LogKind

pub data VisualMode : Type 0 where
  char line : VisualMode

-- A line of the filtered log and a column.
pub record VisualSel : Type 0 where
  pub mode : VisualMode
  pub anchor : ℕ × ℕ
  pub cursor : ℕ × ℕ

-- Does the first position stand before the second, or at it?
unfoldable pub ordered : ℕ × ℕ → ℕ × ℕ → Bool
ordered (al, ac) (cl, cc) = ltb al cl || (same_number al cl && leb ac cc)

unfoldable pub normalized : VisualSel → (ℕ × ℕ) × (ℕ × ℕ)
unfolding ordered
normalized s = if ordered s.anchor s.cursor then (s.anchor, s.cursor) else (s.cursor, s.anchor)

unfoldable pub active_hosts : List String → Option String → List String
active_hosts [] none = []
active_hosts [] (some name) = name ∷ []
active_hosts (m ∷ marked) selected = m ∷ marked

unfoldable pub shows : List String → LogEntry → Bool
shows active e = elim e.host [ none ↦ true | some h ↦ member h active ]

-- `enumerate` and `filter_map`, from the index `i` on.
unfoldable pub indices_from : ℕ → List String → List LogEntry → List ℕ
unfolding shows
indices_from i active [] = []
indices_from i active (e ∷ log) =
    let rest = indices_from (suc i) active log in if shows active e then i ∷ rest else rest

unfoldable pub filtered_indices : List LogEntry → List String → Option String → List ℕ
unfolding active_hosts indices_from
filtered_indices log marked selected = indices_from 0 (active_hosts marked selected) log

unfoldable pub char_selection_bounds : ℕ → ℕ → ℕ → ℕ → ℕ → ℕ → ℕ × ℕ
char_selection_bounds char_count line_idx start_line start_col end_line end_col =
    if same_number start_line end_line
    then (min start_col char_count, min (end_col + 1) char_count)
    else if same_number line_idx start_line
    then (min start_col char_count, char_count)
    else if same_number line_idx end_line
    then (0, min (end_col + 1) char_count)
    else (0, char_count)

-- ===== src/Tui/Search.antt =====
-- crates/deptui/src/app.rs: the lines that the job log shows, and the search in them.
use Prim.Native.String.{count}
use deptui.Prelude.{
  ℕ, ℤ, zero, suc, ◌+◌, ◌-◌, String, ◌&&◌, Option, none, some, List, [], ◌∷◌, ltb, leb, length,
  is_some, if◌then◌else◌, map_option,
}
use deptui.Prelude.Strip.{strip_prefix}
use deptui.Prelude.Vectors.{get_elem?, offset, at_least_zero}
use deptui.Tui.{App, selected_node}
use deptui.Tui.Joblog.{LogEntry, filtered_indices}

-- `0..log.len()`, from `i` on.
unfoldable pub all_indices : ℕ → List LogEntry → List ℕ
all_indices i [] = []
all_indices i (e ∷ log) = i ∷ all_indices (suc i) log

unfoldable pub filtered_for_job_log : App → List ℕ
unfolding all_indices filtered_indices selected_node
filtered_for_job_log a =
    if a.agent.open_view
    then elim a.agent.marked [
      | [] ↦ all_indices 0 a.log
      | m ∷ marked ↦ filtered_indices a.log (m ∷ marked) none
    ]
    else filtered_indices a.log a.marked (map_option (λ n. n.name) (selected_node a))

-- The text of a line; the index is one of the log's.
unfoldable pub text_at : List LogEntry → ℕ → String
text_at log idx = elim (get_elem? log idx) [ none ↦ "" | some e ↦ e.text ]

-- `str::matches` for a text that is not empty, with so many characters of a match to skip.
unfoldable pub matches_from : String → ℕ → String → ℕ
unfolding strip_prefix
matches_from q skip String.[] = 0
matches_from q (suc skip) (String.◌∷◌ c s) = matches_from q skip s
matches_from q zero (String.◌∷◌ c s) =
    let hit = is_some (strip_prefix q (String.◌∷◌ c s)) in
    (if hit then 1 else 0) + matches_from q (if hit then count q - 1 else 0) s

unfoldable pub hits_in : List LogEntry → String → List ℕ → ℕ
unfolding text_at matches_from
hits_in log q [] = 0
hits_in log q (idx ∷ rest) = matches_from q 0 (text_at log idx) + hits_in log q rest

unfoldable pub count_all_matches : App → String → ℕ
unfolding hits_in filtered_for_job_log
count_all_matches a q = hits_in a.log q (filtered_for_job_log a)

-- The place, among the lines shown, of the line with the match of that number.
unfoldable pub find_match : List LogEntry → String → ℕ → ℕ → ℕ → List ℕ → Option ℕ
unfolding text_at matches_from
find_match log q target i seen [] = none
find_match log q target i seen (idx ∷ rest) =
    let hits = matches_from q 0 (text_at log idx) in
    let later = find_match log q target (suc i) (seen + hits) rest in
    if ltb 0 hits && leb target (seen + hits) then some i else later

unfoldable pub scroll_to_match : App → App
unfolding find_match filtered_for_job_log
scroll_to_match a = elim a.log_search [
  | none ↦ a
  | some q ↦ elim (find_match a.log q a.log_search_match_idx 0 0 (filtered_for_job_log a)) [
    | none ↦ a
    | some i ↦ record a { job_log_scroll = length (filtered_for_job_log a) - 1 - i }
  ]
]

unfoldable pub wrap_match : ℤ → ℕ → ℕ
unfolding at_least_zero
wrap_match cur total =
    let n = at_least_zero cur in if ltb n 1 then total else if ltb total n then 1 else n

unfoldable pub advance_match : ℤ → App → App
unfolding count_all_matches scroll_to_match wrap_match offset
advance_match direction a = elim a.log_search [
  | none ↦ a
  | some q ↦ elim (count_all_matches a q) [
    | zero ↦ a
    | suc t ↦ scroll_to_match (record a {
      log_search_match_idx = wrap_match (offset a.log_search_match_idx direction) (suc t);
    })
  ]
]

unfoldable pub search_job_log_jump_initial : App → App
unfolding count_all_matches scroll_to_match
search_job_log_jump_initial a = elim a.log_search [
  | none ↦ a
  | some q ↦ scroll_to_match (record a { log_search_match_idx = count_all_matches a q })
]

unfoldable pub clear_log_search : App → App
clear_log_search a = record a { log_search = none; log_search_match_idx = 0 }

unfoldable pub log_search_stats : App → ℕ × ℕ
unfolding count_all_matches
log_search_stats a = elim a.log_search [
  | none ↦ (0, 0)
  | some q ↦ (a.log_search_match_idx, count_all_matches a q)
]

-- ===== src/Tui/Matches.antt =====
-- crates/deptui/src/app.rs: the match of the job log's search that `n` and `N` walk over.
use deptui.Prelude.{
  ℕ, ℤ, pos, negsuc, zero, suc, ◌≤◌, ◌≡◌, refl, ◌∙◌, ap, String, Option, none, some, arith, length,
  ◌-◌,
}
use deptui.Prelude.Vectors.{offset, at_least_zero}
use deptui.Tui.{App}
use deptui.Tui.Search.{
  filtered_for_job_log, find_match, count_all_matches, scroll_to_match, wrap_match, advance_match,
}

-- Scrolling to a match changes the offset of the log alone.
scrolled : (a : App) → (k : ℕ) × (scroll_to_match a ≡ record a { job_log_scroll = k })
unfolding scroll_to_match
scrolled a = asked a.log_search
  where
    at_line :
        (o : Option ℕ)
        → (k : ℕ) × ((elim o [
          | none ↦ a
          | some i ↦ record a { job_log_scroll = length (filtered_for_job_log a) - 1 - i }
        ])
            ≡ record a { job_log_scroll = k })
    at_line none = (a.job_log_scroll, refl)
    at_line (some i) = (length (filtered_for_job_log a) - 1 - i, refl)

    asked :
        (o : Option String)
        → (k : ℕ) × ((elim o [
          | none ↦ a
          | some q ↦ elim (find_match a.log q a.log_search_match_idx 0 0 (filtered_for_job_log a)) [
            | none ↦ a
            | some i ↦ record a { job_log_scroll = length (filtered_for_job_log a) - 1 - i }
          ]
        ])
            ≡ record a { job_log_scroll = k })
    asked none = (a.job_log_scroll, refl)
    asked (some q) =
        at_line (find_match a.log q a.log_search_match_idx 0 0 (filtered_for_job_log a))

wrap-back :
    (i n : ℕ)
    → 1 ≤ i
    → i ≤ n
    → wrap_match (offset (wrap_match (offset i (pos 1)) n) (negsuc 0)) n ≡ i
unfolding wrap_match offset at_least_zero
wrap-back i n low high = ground arith

wrap-forth :
    (i n : ℕ)
    → 1 ≤ i
    → i ≤ n
    → wrap_match (offset (wrap_match (offset i (negsuc 0)) n) (pos 1)) n ≡ i
unfolding wrap_match offset at_least_zero
wrap-forth i n low high = ground arith

pub some-case :
    {A B : Type 0} (o : Option A) (d : B) (f : A → B) (x : A)
    → o ≡ some x
    → elim o [ none ↦ d | some y ↦ f y ] ≡ f x
some-case o d f x e = rw e refl

suc-case :
    {B : Type 0} (n : ℕ) (d : B) (f : ℕ → B) (t : ℕ)
    → n ≡ suc t
    → elim n [ zero ↦ d | suc m ↦ f m ] ≡ f t
suc-case n d f t e = rw e refl

-- A step over the matches, if there are some: it sets the number of the match and the scroll offset.
advanced :
    (a : App) (q : String) (t : ℕ) (d : ℤ)
    → a.log_search ≡ some q
    → count_all_matches a q ≡ suc t
    → (k : ℕ) × (advance_match d a ≡ record a {
      log_search_match_idx = wrap_match (offset a.log_search_match_idx d) (suc t);
      job_log_scroll = k;
    })
unfolding advance_match
advanced a q t d searching found =
    let (k, e) =
      scrolled (record a {
        log_search_match_idx = wrap_match (offset a.log_search_match_idx d) (suc t);
      }) in
    (k, some-case a.log_search a _ q searching ∙ suc-case (count_all_matches a q) a _ t found ∙ e)

-- Two steps in a row, over the same matches.
advanced_twice :
    (a : App) (q : String) (t : ℕ) (c d : ℤ)
    → a.log_search ≡ some q
    → count_all_matches a q ≡ suc t
    → (advance_match d (advance_match c a)).log_search_match_idx
      ≡ wrap_match (offset (wrap_match (offset a.log_search_match_idx c) (suc t)) d) (suc t)
unfolding count_all_matches filtered_for_job_log
advanced_twice a q t c d searching found =
    let (k, e) = advanced a q t c searching found in
    let (l, f) =
      advanced
        (record a {
          log_search_match_idx = wrap_match (offset a.log_search_match_idx c) (suc t);
          job_log_scroll = k;
        })
        q t d searching found in
    ap (λ b. (advance_match d b).log_search_match_idx) e ∙ ap (λ b. b.log_search_match_idx) f

-- When a search is on and the current match is one of those counted, a step forward and a step
-- back, in either order, come back to it, round the ends too.
pub advance_match-back :
    (a : App) (q : String)
    → a.log_search ≡ some q
    → 1 ≤ a.log_search_match_idx
    → a.log_search_match_idx ≤ count_all_matches a q
    → ((advance_match (negsuc 0) (advance_match (pos 1) a)).log_search_match_idx
        ≡ a.log_search_match_idx)
      × ((advance_match (pos 1) (advance_match (negsuc 0) a)).log_search_match_idx
          ≡ a.log_search_match_idx)
advance_match-back a q searching low high = counted (count_all_matches a q) refl
  where
    counted :
        (n : ℕ)
        → count_all_matches a q ≡ n
        → ((advance_match (negsuc 0) (advance_match (pos 1) a)).log_search_match_idx
            ≡ a.log_search_match_idx)
          × ((advance_match (pos 1) (advance_match (negsuc 0) a)).log_search_match_idx
              ≡ a.log_search_match_idx)
    counted zero e = omega arith
    counted (suc t) e = (
      advanced_twice a q t (pos 1) (negsuc 0) searching e
          ∙ wrap-back a.log_search_match_idx (suc t) low (omega arith),
      advanced_twice a q t (negsuc 0) (pos 1) searching e
          ∙ wrap-forth a.log_search_match_idx (suc t) low (omega arith),
    )

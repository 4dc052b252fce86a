-- ===== src/Daemon/Histories.antt =====
-- crates/deptui-agent/src/daemon.rs: the order of the runs that `history` answers.
use deptui.Prelude.{
  ℕ, ◌≤◌, String, ◌≡◌, refl, ap, sym, ◌∙◌, Bool, true, false, Option, List, [], ◌∷◌, arith, leb,
  length, filter_by, All, Bool-cases, inl, inr,
}
use deptui.Prelude.Result.{Result, ok, err, result_or}
use deptui.Wire.{RunSummary}
use deptui.Daemon.{Daemon}
use deptui.Daemon.Report.{collect, insert_run, sort_runs, known_watch, history}

-- Newest first.
abbrev pub Falling : List RunSummary → Type 0
Falling [] = Unit {0}
Falling (r ∷ rest) = All (λ (x : RunSummary). x.started ≤ r.started) rest × Falling rest

abbrev Below : ℕ → List RunSummary → Type 0
Below t runs = All (λ (x : RunSummary). x.started ≤ t) runs

Below-insert_run :
    (t : ℕ) (r : RunSummary) (runs : List RunSummary)
    → r.started ≤ t
    → Below t runs
    → Below t (insert_run r runs)
unfolding insert_run
Below-insert_run t r [] h b = (h, tt)
Below-insert_run t r (x ∷ rest) h b = elim (Bool-cases (leb x.started r.started)) [
  | inl yes' ↦ rw (yes') (h, b)
  | inr no' ↦ rw (no') (b.0, Below-insert_run t r rest h b.1)
]

Below-weaken : (t u : ℕ) (runs : List RunSummary) → t ≤ u → Below t runs → Below u runs
Below-weaken t u [] h b = tt
Below-weaken t u (x ∷ rest) h b = (omega (arith, h, b.0), Below-weaken t u rest h b.1)

leb_le : (a b : ℕ) → leb a b ≡ true → a ≤ b
leb_le a b h = ground arith

leb-false : (a b : ℕ) → leb a b ≡ false → b ≤ a
leb-false a b h = ground arith

Falling-insert_run :
    (r : RunSummary) (runs : List RunSummary) → Falling runs → Falling (insert_run r runs)
unfolding insert_run
Falling-insert_run r [] f = (tt, tt)
Falling-insert_run r (x ∷ rest) f = elim (Bool-cases (leb x.started r.started)) [
  | inl yes' ↦ rw (yes') (
    (
      leb_le x.started r.started yes',
      Below-weaken x.started r.started rest (leb_le x.started r.started yes') f.0,
    ),
    f,
  )
  | inr no' ↦ rw (no') (
    Below-insert_run x.started r rest (leb-false x.started r.started no') f.0,
    Falling-insert_run r rest f.1,
  )
]

Falling-sort_runs : (runs : List RunSummary) → Falling (sort_runs runs)
unfolding sort_runs
Falling-sort_runs [] = tt
Falling-sort_runs (r ∷ rest) = Falling-insert_run r (sort_runs rest) (Falling-sort_runs rest)

-- How many of the runs pass a test.
abbrev pub count_by : (RunSummary → Bool) → List RunSummary → ℕ
count_by p runs = length (filter_by p runs)

count-insert_run :
    (p : RunSummary → Bool) (r : RunSummary) (runs : List RunSummary)
    → count_by p (insert_run r runs) ≡ count_by p (r ∷ runs)
unfolding insert_run
count-insert_run p r [] = refl
count-insert_run p r (x ∷ rest) = elim (Bool-cases (leb x.started r.started)) [
  | inl yes' ↦ rw (yes') refl
  | inr no' ↦ rw (no') (ground (arith, count-insert_run p r rest))
]

count-sort_runs :
    (p : RunSummary → Bool) (runs : List RunSummary) → count_by p (sort_runs runs) ≡ count_by p runs
unfolding sort_runs
count-sort_runs p [] = refl
count-sort_runs p (r ∷ rest) =
    count-insert_run p r (sort_runs rest) ∙ ground (arith, count-sort_runs p rest)

sorted_history :
    (d : Daemon) (watch : Option String) (known : Result (Unit {0})) (out : List RunSummary)
    (p : RunSummary → Bool)
    → (elim known as (λ x. Result (List RunSummary)) [
      | err e ↦ err e
      | ok u ↦ ok (sort_runs (collect watch d.state.watches))
    ])
      ≡ ok out
    → Falling out × (count_by p out ≡ count_by p (collect watch d.state.watches))
sorted_history d watch (err e) out p h = cc
sorted_history d watch (ok u) out p h =
    let e = ap (λ (r : Result (List RunSummary)). result_or r []) h in
    rw (sym e) (
      Falling-sort_runs (collect watch d.state.watches),
      count-sort_runs p (collect watch d.state.watches),
    )

-- The history that is answered is newest first, and no test tells it apart from the runs collected
-- from the watches by how many runs pass it.
pub history-Falling :
    (d : Daemon) (watch : Option String) (out : List RunSummary) (p : RunSummary → Bool)
    → history d watch ≡ ok out
    → Falling out × (count_by p out ≡ count_by p (collect watch d.state.watches))
unfolding history
history-Falling d watch out p h = sorted_history d watch (known_watch d watch) out p h

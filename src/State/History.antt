-- ===== src/State/History.antt =====
-- crates/deptui-agent/src/state.rs: entries of the state, the run history and its bound, and the
-- clean-up of a loaded state.
use deptui.Prelude.{
  ◌≤◌, ◌<◌, String, ◌≡◌, refl, ap, inl, inr, Option, none, some, List, [], ◌∷◌, ◌++◌, ◌==◌, arith,
  eq_iff, eq_refl, ltb, length, length-append_one, Bool-cases, if◌then◌else◌, unwrap_or, map_option,
}
use deptui.Prelude.Map.{Map, get, get-insert}
use deptui.State.{
  RunRecord, HostState, WatchState, AgentState, new_host, new_watch, max_history, watch_state,
  host_state, update_watch, update_host, prune, push_run, drop_park, map_values,
  drop_superseded_parks,
}
use deptui.State.Outcome.{Exclusive}

-- An entry after an update: the updated one, and every other as it was.
pub watch_state-update :
    (k j : String) (f : WatchState → WatchState) (st : AgentState)
    → watch_state (update_watch k f st) j
      ≡ (if k == j then f (watch_state st k) else watch_state st j)
unfolding update_watch
watch_state-update k j f st = rw get-insert (ground (arith, eq_iff k j))

pub host_state-update :
    (k j : String) (f : HostState → HostState) (ws : WatchState)
    → host_state (update_host k f ws) j ≡ (if k == j then f (host_state ws k) else host_state ws j)
unfolding update_host
host_state-update k j f ws = rw get-insert (ground (arith, eq_iff k j))

length-prune : (runs : List RunRecord) → length (prune runs) ≤ max_history
unfolding prune
length-prune [] = omega arith
length-prune (r ∷ rest) = ground (arith, length-prune rest)

-- What a pruned history lost stood at its old end.
prune-suffix : (runs : List RunRecord) → (lost : List RunRecord) × (runs ≡ lost ++ prune runs)
unfolding prune
prune-suffix [] = ([], refl)
prune-suffix (r ∷ rest) = elim (Bool-cases (ltb max_history (length (r ∷ rest)))) [
  | inl over ↦ let (lost, e) = prune-suffix rest in (r ∷ lost, rw over (ap (λ l. r ∷ l) e))
  | inr fits ↦ ([], rw fits)
]

prune_short : (runs : List RunRecord) → length runs ≤ max_history → prune runs ≡ runs
unfolding prune
prune_short [] h = refl
prune_short (r ∷ rest) h = ground arith

-- After a run is pushed, the watch keeps at most fifty runs, and what was dropped stood at the old
-- end.
pub push_run-history :
    (watch : String) (run : RunRecord) (st : AgentState)
    → let before = (watch_state st watch).history in
      let after = (watch_state (push_run watch run st) watch).history in
      (length after ≤ max_history)
      × ((lost : List RunRecord) × (before ++ run ∷ [] ≡ lost ++ after))
unfolding push_run
push_run-history watch run st =
    let before = (watch_state st watch).history in
    rw (watch_state-update, eq_refl watch)
      (length-prune (before ++ run ∷ []), prune-suffix (before ++ run ∷ []))

-- While a watch has fewer than fifty runs, pushing one drops none.
pub push_run-fits :
    (watch : String) (run : RunRecord) (st : AgentState)
    → length (watch_state st watch).history < max_history
    → (watch_state (push_run watch run st) watch).history
      ≡ (watch_state st watch).history ++ run ∷ []
unfolding push_run
push_run-fits watch run st h =
    let before = (watch_state st watch).history in
    rw (watch_state-update, eq_refl watch)
      (prune_short (before ++ run ∷ []) (omega (arith, length-append_one before run)))

get-map_values {ℓ} :
    {V : Type ℓ} (f : V → V) (k : String) (m : Map V)
    → get k (map_values f m) ≡ map_option f (get k m)
unfolding get map_values
get-map_values f k [] = refl
get-map_values f k ((j, v) ∷ m) = elim (Bool-cases (j == k)) [
  | inl here ↦ rw here
  | inr there ↦ rw there (get-map_values f k m)
]

drop_park-Exclusive : (hs : HostState) → Exclusive (drop_park hs)
unfolding drop_park
drop_park-Exclusive hs = ground arith

entry-Exclusive : (o : Option HostState) → Exclusive (unwrap_or (map_option drop_park o) new_host)
entry-Exclusive none = inl refl
entry-Exclusive (some hs) = drop_park-Exclusive hs

cleaned-Exclusive :
    (o : Option WatchState) (h : String)
    → Exclusive (
        host_state
          (unwrap_or
            (map_option (λ (w : WatchState). record w { hosts = map_values drop_park w.hosts }) o)
            new_watch)
          h)
unfolding get
cleaned-Exclusive none h = inl refl
cleaned-Exclusive (some w) h =
    rw (get-map_values drop_park h w.hosts) (entry-Exclusive (get h w.hosts))

-- After the clean-up of a loaded state no host of any watch has a park beside a pending update,
-- whatever the file held.
pub drop_superseded_parks-Exclusive :
    (st : AgentState) (w h : String)
    → Exclusive (host_state (watch_state (drop_superseded_parks st) w) h)
unfolding drop_superseded_parks
drop_superseded_parks-Exclusive st w h =
    rw (get-map_values (λ ws. record ws { hosts = map_values drop_park ws.hosts }) w st.watches)
      (cleaned-Exclusive (get w st.watches) h)

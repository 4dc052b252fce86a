-- ===== src/State/Load.antt =====
-- crates/deptui-agent/src/state.rs: `load`, with the file system and the JSON parser as the case that they
-- answer.
use deptui.Prelude.{
  String, ◌≡◌, ◌∙◌, sym, subst, inl, refl, true, false, Bool, if◌then◌else◌, same_number, ◌∷◌, [],
}
use deptui.Prelude.Text.{concat}
use deptui.Prelude.Result.{Result, ok, err}
use deptui.State.Outcome.{Exclusive}
use deptui.State.History.{drop_superseded_parks-Exclusive}
use deptui.State.{
  watch_state, host_state, AgentState, schema_version, new_state, drop_superseded_parks,
}

-- What reading and parsing the file gives.
pub data StateFile : Type 0 where
  missing : StateFile
  unreadable : String → StateFile
  garbled : StateFile
  parsed : AgentState → StateFile

unfoldable pub load_state : String → StateFile → Result AgentState
unfolding drop_superseded_parks
load_state path missing = ok new_state
load_state path (unreadable e) = err (concat ("reading " ∷ path ∷ ": " ∷ e ∷ []))
load_state path garbled = ok new_state
load_state path (parsed st) =
    if same_number st.schema schema_version then ok (drop_superseded_parks st) else ok new_state

abbrev Clean : Result AgentState → Type 0
Clean (ok st) = (w h : String) → Exclusive (host_state (watch_state st w) h)
Clean (err e) = Unit {0}

Clean-schema :
    (b : Bool) (st : AgentState) → Clean (if b then ok (drop_superseded_parks st) else ok new_state)
unfolding deptui.Prelude.Map.get
Clean-schema true st = drop_superseded_parks-Exclusive st
Clean-schema false st = λ w h. inl refl

load_state-Clean : (path : String) (file : StateFile) → Clean (load_state path file)
unfolding load_state deptui.Prelude.Map.get
load_state-Clean path missing = λ w h. inl refl
load_state-Clean path (unreadable e) = tt
load_state-Clean path garbled = λ w h. inl refl
load_state-Clean path (parsed st) = Clean-schema (same_number st.schema schema_version) st

-- In a state that was loaded no host of any watch has a park beside a pending update, whatever the
-- file held.
pub load_state-Exclusive :
    (path : String) (file : StateFile) (st : AgentState) (w h : String)
    → load_state path file ≡ ok st
    → Exclusive (host_state (watch_state st w) h)
load_state-Exclusive path file st w h e = subst Clean e (load_state-Clean path file) w h

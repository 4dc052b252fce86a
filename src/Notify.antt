-- ===== src/Notify.antt =====
-- crates/deptui-agent/src/notify.rs: the events that are worth a notification, and how one is read.
pub mod Dispatch
use deptui.Prelude.{
  ℕ, String, Bool, ◌||◌, Option, none, some, List, [], ◌∷◌, ◌==◌, if◌then◌else◌, unwrap_or,
}
use deptui.Prelude.Text.{concat}

pub record Event : Type 0 where
  pub kind : String
  pub watch : String
  pub host : Option String
  pub rev : String
  pub message : String
  pub time : ℕ

unfoldable pub title : Event → String
title e =
    let host = unwrap_or e.host "-" in
    if e.kind == "failure"
    then concat ("deploy failed: " ∷ host ∷ " (" ∷ e.watch ∷ ")" ∷ [])
    else if e.kind == "success"
    then concat ("deployed: " ∷ host ∷ " (" ∷ e.watch ∷ ")" ∷ [])
    else if e.kind == "start"
    then concat ("deploying: " ∷ host ∷ " (" ∷ e.watch ∷ ")" ∷ [])
    else if e.kind == "unreachable"
    then concat ("unreachable: " ∷ host ∷ " (" ∷ e.watch ∷ ")" ∷ [])
    else if e.kind == "held"
    then concat ("held (needs adoption): " ∷ host ∷ " (" ∷ e.watch ∷ ")" ∷ [])
    else concat (e.kind ∷ ": " ∷ host ∷ " (" ∷ e.watch ∷ ")" ∷ [])

-- The kinds that run the `on_failure` hook.
unfoldable pub runs_hook : String → Bool
runs_hook kind = kind == "failure" || kind == "unreachable" || kind == "held"

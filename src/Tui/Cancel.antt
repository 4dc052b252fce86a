-- ===== src/Tui/Cancel.antt =====
-- crates/deptui/src/app.rs: the end of a deploy, kept for its host, and the cancelling of it.
use deptui.Prelude.{
  ℤ, negsuc, String, Bool, true, false, none, some, List, [], ◌∷◌, length, ltb, if◌then◌else◌,
}
use deptui.Prelude.Text.{concat, decimal}
use deptui.Prelude.Map.{insert}
use deptui.Tui.{
  App, DeploySession, LastDeploy, World, cancelled, aborted, emit, clear_cached_password,
}
use deptui.Tui.Log.{push_log, push_log_tagged}
use deptui.Tui.Probes.{cancel_probes}

unfoldable pub record_last : LastDeploy → App → App
unfolding insert
record_last entry a = record a {
  last_deploys = insert entry.node entry a.last_deploys;
  last_deploy = some entry;
}

unfoldable pub last_of : DeploySession → ℤ → Bool → LastDeploy
last_of s exit_code done = record {
  node = s.current;
  mode = s.mode;
  profile = s.profile;
  exit_code = exit_code;
  ok = done;
}

unfoldable pub cancel_message : List String → String
unfolding decimal
cancel_message [] = "! deploy cancelled"
cancel_message (q ∷ queue) =
    concat ("! deploy cancelled — dropped " ∷ decimal (length (q ∷ queue)) ∷ " queued host(s)" ∷ [])

unfoldable pub cancel_session : DeploySession → App → App
unfolding cancel_message record_last last_of push_log_tagged clear_cached_password emit
cancel_session s a =
    let b = emit (if s.cancel then cancelled s.current else aborted s.current) a in
    let c = record (clear_cached_password b) { deploy = none; busy_label = none } in
    record_last (last_of s (negsuc 0) false)
      (push_log_tagged (cancel_message s.queue) true (some s.current) c)

unfoldable pub cancel_deploy : World → App → App
unfolding cancel_session cancel_probes push_log decimal
cancel_deploy w a =
    let (stopped, b) = cancel_probes w a in
    elim b.deploy [
      | some s ↦ cancel_session s b
      | none ↦
          if ltb 0 stopped
          then push_log (concat ("! cancelled " ∷ decimal stopped ∷ " in-flight check(s)" ∷ []))
              true b
          else b
    ]

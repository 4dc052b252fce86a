-- ===== src/State/Outcome.antt =====
-- crates/deptui-agent/src/state.rs and crates/deptui-core/src/agentwire.rs: the outcomes that a run
-- records, and what each leaves standing of a host.
use deptui.Prelude.{
  ℕ, String, ◌≡◌, refl, ap, ◌∙◌, unwrap_or, ◌⊎◌, Bool, true, false, none, some, arith, eq_iff,
}
use deptui.Wire.{OfflineKind, down, denied, stalled, kind_outcome, from_outcome}
use deptui.State.{HostRun, HostState, new_host, apply_named, apply_outcome}

-- The outcomes that the runner records.
pub data Outcome : Type 0 where
  succeeded adopted held failed cancelled : Outcome
  pending : OfflineKind → Outcome

unfoldable pub outcome_name : Outcome → String
unfolding kind_outcome
outcome_name succeeded = "ok"
outcome_name adopted = "adopted"
outcome_name held = "held"
outcome_name failed = "failed"
outcome_name cancelled = "cancelled"
outcome_name (pending k) = kind_outcome k

abbrev pub is_pending : Outcome → Bool
is_pending (pending k) = true
is_pending _ = false

-- What stands of a host after each outcome, said once for each.
unfoldable pub standing : Outcome → HostState → HostRun → String → ℕ → HostState
standing succeeded hs hr rev t = record new_host {
  paused = hs.paused;
  deployed = some (record { rev = rev; time = t });
  deployed_toplevels = hr.toplevels;
}
standing adopted hs hr rev t = record new_host {
  paused = hs.paused;
  deployed = some (record { rev = rev; time = t });
  deployed_toplevels = hr.toplevels;
}
standing held hs hr rev t = record hs { held = some (record { rev = rev; time = t }) }
standing failed hs hr rev t = record hs {
  failed = some (record { rev = rev; time = t; message = unwrap_or hr.message "" });
  offline = none;
  approved = false;
}
standing cancelled hs hr rev t = record hs {
  failed = some (record { rev = rev; time = t; message = unwrap_or hr.message "cancelled" });
  offline = none;
  approved = false;
}
standing (pending k) hs hr rev t = record hs {
  offline = some (record { rev = rev; time = t; target = unwrap_or hr.target ""; kind = k });
  failed = none;
  unreachable = hr.message;
}

named_standing :
    (o : Outcome) (hs : HostState) (hr : HostRun) (rev : String) (t : ℕ)
    → apply_named (outcome_name o) hs hr rev t ≡ standing o hs hr rev t
unfolding apply_named outcome_name standing
named_standing succeeded hs hr rev t = refl
named_standing adopted hs hr rev t = refl
named_standing held hs hr rev t = refl
named_standing failed hs hr rev t = refl
named_standing cancelled hs hr rev t = refl
named_standing (pending down) hs hr rev t = refl
named_standing (pending denied) hs hr rev t = refl
named_standing (pending stalled) hs hr rev t = refl

-- For each outcome that a run records, folding it by its name leaves of the host what the
-- description by outcomes says: success and adoption wipe everything but the pause and set the
-- revision and the paths, a hold adds its stamp, a failure and a cancel park the host and use up
-- its approval, and a pending outcome replaces a park.
pub apply_outcome-standing :
    (o : Outcome) (hs : HostState) (hr : HostRun) (rev : String) (t : ℕ)
    → hr.outcome ≡ outcome_name o
    → apply_outcome hs hr rev t ≡ standing o hs hr rev t
unfolding apply_outcome
apply_outcome-standing o hs hr rev t e =
    ap (λ name. apply_named name hs hr rev t) e ∙ named_standing o hs hr rev t

-- A park and a pending update do not stand side by side.
abbrev pub Exclusive : HostState → Type 0
Exclusive hs = (hs.failed ≡ none) ⊎ (hs.offline ≡ none)

-- `from_outcome` reads back every kind, and answers a kind for its own name alone.
pub from_outcome-kind_outcome : (k : OfflineKind) → from_outcome (kind_outcome k) ≡ some k
unfolding from_outcome kind_outcome
from_outcome-kind_outcome down = refl
from_outcome-kind_outcome denied = refl
from_outcome-kind_outcome stalled = refl

-- An outcome that is read as a kind of a pending update is that kind's own name: no other outcome
-- counts as pending.
pub kind_outcome-from_outcome :
    (o : String) (k : OfflineKind) → from_outcome o ≡ some k → o ≡ kind_outcome k
unfolding from_outcome kind_outcome
kind_outcome-from_outcome o k h =
    ground (arith, eq_iff o "offline", eq_iff o "denied", eq_iff o "stalled")

-- A host that has no park beside a pending update has none after any outcome is folded in, known or
-- not.
pub apply_outcome-Exclusive :
    (hs : HostState) (hr : HostRun) (rev : String) (t : ℕ)
    → Exclusive hs
    → Exclusive (apply_outcome hs hr rev t)
unfolding apply_outcome
apply_outcome-Exclusive hs hr rev t h = ground arith

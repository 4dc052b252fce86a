-- ===== src/Daemon/Approvals.antt =====
-- crates/deptui-agent/src/daemon.rs: what an approval and its revocation change.
use deptui.Prelude.{
  String, ◌≡◌, refl, ap, ◌∙◌, Bool, true, false, not, ◌&&◌, some, ◌∷◌, ◌==◌, arith, eq_iff,
  if◌then◌else◌, Bool-cases, inl, inr,
}
use deptui.Prelude.Result.{Result, ok, err}
use deptui.State.{AgentState, HostState, watch_state, host_state, update_watch, update_host}
use deptui.State.History.{watch_state-update, host_state-update}
use deptui.Daemon.{System, Task, return, here, modify, save_state, ◌>>=◌}
use deptui.Daemon.Control.{configures, approval, ensure_host, set_approved, approve_in, approve}

abbrev pub standing_of : System → String → String → HostState
standing_of s watch host = host_state (watch_state s.daemon.state watch) host

-- The flag of the one host is set, the other hosts and their other fields stand as before, nothing
-- but the state is touched, and the new state is written.
pub record Decided (watch host : String) (value : Bool) (s t : System) : Type 0 where
  pub entry :
      (w h : String)
      → standing_of t w h ≡ (
          if watch == w && host == h
          then record (standing_of s watch host) { approved = value }
          else standing_of s w h)
  pub saved : t.saves ≡ t.daemon.state ∷ s.saves
  pub runs : t.runs ≡ s.runs
  pub running : t.daemon.running ≡ s.daemon.running
  pub pending : t.daemon.pending ≡ s.daemon.pending

abbrev touched : String → String → (HostState → HostState) → AgentState → AgentState
touched watch host f st = update_watch watch (update_host host f) st

touched-standing :
    (watch host w h : String) (f : HostState → HostState) (st : AgentState)
    → host_state (watch_state (touched watch host f st) w) h ≡ (
        if watch == w && host == h
        then f (host_state (watch_state st watch) host)
        else host_state (watch_state st w) h)
touched-standing watch host w h f st = rw (watch_state-update) (elim (Bool-cases (watch == w)) [
  | inl e ↦
      rw (e, host_state-update)
        (elim (Bool-cases (host == h)) [
          | inl e' ↦ rw (e') refl
          | inr e' ↦ rw (e') (ap (λ x. host_state (watch_state st x) h) ((eq_iff watch w).0 e))
        ])
  | inr e ↦ rw (e) refl
])

-- The vacant entry that is made first reads as before.
ensured-standing :
    (watch host w h : String) (st : AgentState)
    → host_state (watch_state (ensure_host watch host st) w) h ≡ host_state (watch_state st w) h
unfolding ensure_host
ensured-standing watch host w h st =
    touched-standing watch host w h (λ hs. hs) st ∙ elim (Bool-cases (watch == w && host == h)) [
      | inl e ↦ rw (e) (
          ap (λ x. host_state (watch_state st x) host) ((eq_iff watch w).0 (ground (arith, e)))
          ∙ ap (λ x. host_state (watch_state st w) x) ((eq_iff host h).0 (ground (arith, e))))
      | inr e ↦ rw (e) refl
    ]

decided-standing :
    (watch host w h : String) (value : Bool) (st : AgentState)
    → host_state (watch_state (set_approved watch host value (ensure_host watch host st)) w) h ≡ (
        if watch == w && host == h
        then record (host_state (watch_state st watch) host) { approved = value }
        else host_state (watch_state st w) h)
unfolding set_approved
decided-standing watch host w h value st =
    touched-standing watch host w h (λ hs. record hs { approved = value })
      (ensure_host watch host st)
    ∙ rw (ensured-standing watch host watch host st, ensured-standing watch host w h st) refl

-- By the reply: a decision that took effect, or an error after which every host stands as before.
abbrev pub Answered : String → String → Bool → System → Result String × System → Type 0
Answered watch host revoke s (ok reply, t) = Decided watch host (not revoke) s t
Answered watch host revoke s (err e, t) = (w h : String) → standing_of t w h ≡ standing_of s w h

approval-value :
    (host : String) (revoke approved : Bool) (p : Bool × String)
    → approval host revoke approved ≡ ok p
    → p.0 ≡ not revoke
unfolding approval
approval-value host revoke approved p h = ground arith

abbrev ensured : String → String → System → System
ensured watch host s = record s {
  daemon = record s.daemon { state = ensure_host watch host s.daemon.state };
}

decided_rest :
    (watch host : String) (revoke : Bool) (s : System) (r : Result (Bool × String))
    → ((p : Bool × String) → r ≡ ok p → p.0 ≡ not revoke)
    → Answered watch host revoke s (
        (elim r as (λ x. Task (Result String)) [
          | err e ↦ return (err e)
          | ok result ↦
              (modify (λ d. record d { state = set_approved watch host result.0 d.state }) >>= λ u.
              save_state >>= λ v. return (ok result.1))
        ])
          (ensured watch host s))
unfolding return modify save_state ◌>>=◌
decided_rest watch host revoke s (err e) f = λ w h. ensured-standing watch host w h s.daemon.state
decided_rest watch host revoke s (ok p) f = record {
  entry = λ w h.
      decided-standing watch host w h p.0 s.daemon.state
      ∙ ap
          (λ value.
            if watch == w && host == h
            then record (standing_of s watch host) { approved = value }
            else standing_of s w h)
          (f p refl);
  saved = refl;
  runs = refl;
  running = refl;
  pending = refl;
}

approve_in-Answered :
    (watch host : String) (revoke : Bool) (s : System)
    → Answered watch host revoke s (approve_in watch host revoke s)
unfolding approve_in here modify ◌>>=◌
approve_in-Answered watch host revoke s =
    let approved = (standing_of (ensured watch host s) watch host).approved in
    decided_rest watch host revoke s (approval host revoke approved)
      (approval-value host revoke approved)

unless_configured :
    (watch host : String) (revoke : Bool) (s : System) (b : Bool) (e : String)
    → Answered watch host revoke s ((if b then return (err e) else approve_in watch host revoke) s)
unfolding return
unless_configured watch host revoke s true e = λ w h. refl
unless_configured watch host revoke s false e = approve_in-Answered watch host revoke s

-- An approval or a revocation for a named watch that is acknowledged sets the flag of the one host
-- and leaves its other fields, all other hosts, the queue and the runs as they are, and the state
-- is written; one that is refused leaves every host as it stands.
pub approve-Answered :
    (watch host : String) (revoke : Bool) (s : System)
    → Answered watch host revoke s (approve (some watch) host revoke s)
unfolding approve here ◌>>=◌
approve-Answered watch host revoke s =
    unless_configured watch host revoke s (not (configures s.daemon.cfg watch host)) _

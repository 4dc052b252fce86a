-- ===== src/Tui/Batch.antt =====
-- crates/deptui/src/app.rs: what a batch comes to when every deploy of it succeeds, against the list of
-- the hosts that can be deployed.
use deptui.Prelude.{
  ℕ, zero, suc, pos, ◌+◌, ◌≤◌, ◌≡◌, refl, ◌∙◌, sym, ap, subst, String, Option, none, some, List, [],
  ◌∷◌, length, arith, filter_by, true, not,
}
use deptui.Deploy.{Mode, ProfileSel, exit}
use deptui.Flake.{Node}
use deptui.Tui.{App, DeploySession, clear_cached_password}
use deptui.Tui.Lines.{
  handle_deploy_line, session_exited, continue_batch, close_session, forget_checks, exit_ok,
  exit_banner,
}
use deptui.Tui.Queue.{start_next_in_queue}
use deptui.Tui.Failures.{exit-running}
use deptui.Tui.Log.{push_log_tagged}
use deptui.Tui.Calm.{launched, Calm, Calm-trans, Calm-push_log_tagged}
use deptui.Tui.Starts.{ready, Next, over, first, Next-queue, Started}
use deptui.Tui.Guarded.Lines.{Calm-close, Calm-cleared, Calm-forget}

-- The screen after so many deploys that end well.
unfoldable pub succeed : ℕ → App → App
succeed zero a = a
succeed (suc n) a = succeed n (handle_deploy_line (exit (pos 0)) a)

-- The hosts in front of those launched before, the newest first.
abbrev pub onto : List String → List String → List String
onto [] before = before
onto (x ∷ xs) before = onto xs (x ∷ before)

-- Nothing is under way, and these hosts have been launched.
record Rests (hosts : List String) (a : App) : Type 0 where
  pub launches : launched a.effects ≡ hosts
  pub idle : a.deploy ≡ none

-- The exit of a child that the screen does not know changes nothing.
Rests-stray :
    (hosts : List String) (a : App)
    → Rests hosts a
    → Rests hosts (handle_deploy_line (exit (pos 0)) a)
unfolding handle_deploy_line
Rests-stray hosts a r = stay a.deploy r.idle
  where
    banner : App
    banner = push_log_tagged (exit_banner (pos 0)) (not (exit_ok (pos 0))) none a

    stay :
        (o : Option DeploySession)
        → o ≡ none
        → Rests hosts (elim o [ none ↦ banner | some s ↦ session_exited s (pos 0) a ])
    stay none e =
        let c : Calm a banner = Calm-push_log_tagged _ _ none a in
        record { launches = c.launches ∙ r.launches; idle = c.same_deploy ∙ r.idle }
    stay (some s) e = cc

Rests-idle : (n : ℕ) (hosts : List String) (a : App) → Rests hosts a → Rests hosts (succeed n a)
unfolding succeed
Rests-idle zero hosts a r = r
Rests-idle (suc n) hosts a r = Rests-idle n hosts _ (Rests-stray hosts a r)

-- After a success the hosts behind the running one are started, in a state that differs in nothing
-- that the choice of hosts looks at.
module _ (a : App) (s : DeploySession) where
  settled : App
  settled = forget_checks s.current (close_session (exit_banner (pos 0)) s (pos 0) true a)

  Calm-settled : Calm (record a { deploy = none }) settled
  unfolding settled
  Calm-settled =
      Calm-trans (Calm-close (exit_banner (pos 0)) s (pos 0) true a) (Calm-forget s.current _)

  exited : App
  exited = session_exited s (pos 0) a

  Next-exited :
      (queue : List String)
      → s.queue ≡ queue
      → Next queue s.profile settled (elim queue [
        | [] ↦ clear_cached_password settled
        | q ∷ rest ↦ start_next_in_queue (q ∷ rest) s.mode s.profile s.total (s.done + 1) settled
      ])
  Next-exited [] e = let c = Calm-cleared settled in over refl c.launches c.same_deploy
  Next-exited (q ∷ rest) e = Next-queue (q ∷ rest) s.mode s.profile s.total (s.done + 1) settled

Next-success :
    (a : App) (s : DeploySession)
    → Next s.queue s.profile (settled a s) (session_exited s (pos 0) a)
unfolding session_exited continue_batch settled exit_ok
Next-success a s = Next-exited a s s.queue refl

-- What the success of the host that was started leaves to be done.
Next-Started :
    (node : Node) (rest : List String) (profile : ProfileSel) (a b : App)
    (t : Started node rest profile a b)
    → Next rest profile (settled b t.session) (handle_deploy_line (exit (pos 0)) b)
Next-Started node rest profile a b t =
    rw (exit-running b t.session t.running (pos 0), sym t.waiting, sym t.selection)
      (Next-success b t.session)

launched-Started :
    (node : Node) (queue rest : List String) (profile : ProfileSel) (a b : App)
    (t : Started node rest profile a b)
    → filter_by (ready a.nodes profile) queue ≡ node.name ∷ filter_by (ready a.nodes profile) rest
    → onto
        (filter_by (ready (settled b t.session).nodes profile) rest)
        (launched (settled b t.session).effects)
      ≡ onto (filter_by (ready a.nodes profile) queue) (launched a.effects)
launched-Started node queue rest profile a b t e =
    let c = Calm-settled b t.session in
    rw (c.same_nodes ∙ t.same_nodes, c.launches ∙ t.launches, e) refl

-- Whatever a start of a queue has come to, so many successes are enough to finish it.
Rests-Next :
    (n : ℕ) (queue : List String) (profile : ProfileSel) (a b : App)
    → a.deploy ≡ none
    → length queue ≤ n
    → Next queue profile a b
    → Rests (onto (filter_by (ready a.nodes profile) queue) (launched a.effects)) (succeed n b)
unfolding succeed
Rests-Next n queue profile a b idle enough (over e l d) = Rests-idle n _ b (record {
  launches = l ∙ ap (λ hosts. onto hosts (launched a.effects)) (sym e);
  idle = d ∙ idle;
})
Rests-Next zero queue profile a b idle enough (first node rest e less t) =
    (let bad : ⊥ = omega arith in elim bad [ ])
Rests-Next (suc n) queue profile a b idle enough (first node rest e less t) =
    subst (λ hosts. Rests hosts (succeed (suc n) b))
      (launched-Started node queue rest profile a b t e)
      (Rests-Next n rest profile (settled b t.session) _ (Calm-settled b t.session).same_deploy
        (omega arith) (Next-Started node rest profile a b t))

-- A batch that starts with no deploy under way, and each of whose deploys succeeds, deploys exactly
-- the hosts of the queue that the flake has with the selected profile, in the queue's order, and
-- ends with no deploy under way; as many successes as the queue has hosts are enough.
pub start_next_in_queue-succeed :
    (queue : List String) (mode : Mode) (profile : ProfileSel) (total done : ℕ) (a : App)
    → a.deploy ≡ none
    → let b = succeed (length queue) (start_next_in_queue queue mode profile total done a) in
      (launched b.effects ≡ onto (filter_by (ready a.nodes profile) queue) (launched a.effects))
      × (b.deploy ≡ none)
start_next_in_queue-succeed queue mode profile total done a idle =
    let r =
      Rests-Next (length queue) queue profile a _ idle (omega arith)
        (Next-queue queue mode profile total done a) in
    (r.launches, r.idle)

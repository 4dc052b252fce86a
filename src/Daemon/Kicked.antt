-- ===== src/Daemon/Kicked.antt =====
-- crates/deptui-agent/src/daemon.rs: a kick that comes while a run or a validation is under way.
use deptui.Prelude.{
  String, ◌≡◌, refl, ◌∙◌, sym, ap, subst, Bool, true, false, Option, List, [], ◌∷◌, ◌++◌, ◌==◌,
  if◌then◌else◌, if-true, any_by, All, All-append, arith, eq_iff,
}
use mathlib.Core.List.{append_assoc, append-nil}
use deptui.Prelude.Text.{concat, join}
use deptui.Prelude.Result.{Result, ok, err}
use deptui.Daemon.{System, Task, here, return, ◌>>=◌}
use deptui.Daemon.Poll.{enqueue, request_poll}
use deptui.Daemon.Control.{kick, kick_all, kick_names}
use deptui.Daemon.Sound.{busy}
use deptui.Effects.{Env}

-- Does the watch wait in the queue?
abbrev pub waits : String → List (String × String) → Bool
waits name pending = any_by (λ (q : String × String). q.0 == name) pending

-- The queue with each of the watches put into it in turn.
abbrev queue_all : List String → List (String × String) → List (String × String)
queue_all [] pending = pending
queue_all (name ∷ rest) pending = queue_all rest (enqueue name "kick" pending)

-- What a kick of these watches does while the daemon is busy: each of them waits in the queue, behind
-- what waited before, and nothing else changes.
pub record Heard (names : List String) (s : System) (p : Result String × System) : Type 0 where
  pub reply : p.0 ≡ ok (concat ("kicked: " ∷ join ", " names ∷ []))
  pub all_wait : All (λ name. waits name p.1.daemon.pending ≡ true) names
  pub added : List (String × String)
  pub behind : p.1.daemon.pending ≡ s.daemon.pending ++ added
  pub by_kick : All (λ (q : String × String). q.1 ≡ "kick") added
  pub rest : p.1 ≡ record s { daemon = record s.daemon { pending = p.1.daemon.pending } }

waits-append :
    (name : String) (xs ys : List (String × String))
    → waits name xs ≡ true
    → waits name (xs ++ ys) ≡ true
waits-append name [] ys h = cc
waits-append name (x ∷ xs) ys h = ground (arith, waits-append name xs ys)

waits-last :
    (name trigger : String) (xs : List (String × String))
    → waits name (xs ++ (name, trigger) ∷ []) ≡ true
waits-last name trigger [] = ground (arith, eq_iff name name)
waits-last name trigger (x ∷ xs) = ground (arith, waits-last name trigger xs)

waits-enqueue :
    (x name trigger : String) (pending : List (String × String))
    → waits x pending ≡ true
    → waits x (enqueue name trigger pending) ≡ true
unfolding enqueue
waits-enqueue x name trigger pending h =
    ground (arith, waits-append x pending ((name, trigger) ∷ []))

enqueue-waits :
    (name trigger : String) (pending : List (String × String))
    → waits name (enqueue name trigger pending) ≡ true
unfolding enqueue
enqueue-waits name trigger pending = ground (arith, waits-last name trigger pending)

waits-queue_all :
    (x : String) (names : List String) (pending : List (String × String))
    → waits x pending ≡ true
    → waits x (queue_all names pending) ≡ true
waits-queue_all x [] pending h = h
waits-queue_all x (name ∷ rest) pending h =
    waits-queue_all x rest (enqueue name "kick" pending) (waits-enqueue x name "kick" pending h)

queue_all-waits :
    (names : List String) (pending : List (String × String))
    → All (λ name. waits name (queue_all names pending) ≡ true) names
queue_all-waits [] pending = tt
queue_all-waits (name ∷ rest) pending = (
  waits-queue_all name rest (enqueue name "kick" pending) (enqueue-waits name "kick" pending),
  queue_all-waits rest (enqueue name "kick" pending),
)

abbrev Behind : List (String × String) → List (String × String) → Type 0
Behind before after =
    (added : List (String × String)) × (after ≡ before ++ added)
    × All (λ (q : String × String). q.1 ≡ "kick") added

Behind-trans : (xs ys zs : List (String × String)) → Behind xs ys → Behind ys zs → Behind xs zs
Behind-trans xs ys zs (a, e, h) (b, f, k) =
    (a ++ b, f ∙ ap (λ l. l ++ b) e ∙ append_assoc xs a b, All-append _ a b h k)

Behind-enqueue :
    (name : String) (pending : List (String × String))
    → Behind pending (enqueue name "kick" pending)
unfolding enqueue
Behind-enqueue name pending = put (waits name pending)
  where
    put :
        (there : Bool) → Behind pending (if there then pending else pending ++ (name, "kick") ∷ [])
    put true = ([], sym (append-nil pending), tt)
    put false = ((name, "kick") ∷ [], refl, (refl, tt))

Behind-queue_all :
    (names : List String) (pending : List (String × String))
    → Behind pending (queue_all names pending)
Behind-queue_all [] pending = ([], sym (append-nil pending), tt)
Behind-queue_all (name ∷ rest) pending =
    Behind-trans pending (enqueue name "kick" pending) _ (Behind-enqueue name pending)
      (Behind-queue_all rest (enqueue name "kick" pending))

abbrev queued : List (String × String) → System → System
queued pending s = record s { daemon = record s.daemon { pending = pending } }

queued-Heard :
    (names : List String) (s : System)
    → Heard names s (
      ok (concat ("kicked: " ∷ join ", " names ∷ [])),
      queued (queue_all names s.daemon.pending) s,
    )
queued-Heard names s =
    let (more, e, kicks) = Behind-queue_all names s.daemon.pending in
    record {
      reply = refl;
      all_wait = queue_all-waits names s.daemon.pending;
      added = more;
      behind = e;
      by_kick = kicks;
      rest = refl;
    }

abbrev ok_or : List String → Result (List String) → List String
ok_or d (ok l) = l
ok_or d (err e) = d

ok-injective : {l m : List String} → ok l ≡ ok m → l ≡ m
ok-injective {l} {m} e = ap (ok_or l) e

module _ (env : Env) where
  request_poll-busy :
      (watch trigger : String) (s : System)
      → busy s.daemon ≡ true
      → request_poll env watch trigger s ≡ (tt, queued (enqueue watch trigger s.daemon.pending) s)
  unfolding request_poll
  request_poll-busy watch trigger s hb = if-true (busy s.daemon) _ _ hb

  kick_all-busy :
      (names : List String) (s : System)
      → busy s.daemon ≡ true
      → kick_all env names s ≡ (tt, queued (queue_all names s.daemon.pending) s)
  unfolding kick_all return ◌>>=◌
  kick_all-busy [] s hb = refl
  kick_all-busy (name ∷ rest) s hb =
      rw (request_poll-busy name "kick" s hb)
        (kick_all-busy rest (queued (enqueue name "kick" s.daemon.pending) s) hb)

  told :
      (r : Result (List String)) (names : List String) (s : System)
      → busy s.daemon ≡ true
      → r ≡ ok names
      → elim r as (λ x. Task (Result String)) [
        | err e ↦ return (err e)
        | ok found ↦
            (kick_all env found >>= λ u. return (ok (concat ("kicked: " ∷ join ", " found ∷ []))))
      ]
          s
        ≡ (
          ok (concat ("kicked: " ∷ join ", " names ∷ [])),
          queued (queue_all names s.daemon.pending) s,
        )
  unfolding return ◌>>=◌
  told (err e) names s hb e' = cc
  told (ok found) names s hb e = rw (kick_all-busy found s hb) (
      ap
        (λ l.
          (ok (concat ("kicked: " ∷ join ", " l ∷ [])), queued (queue_all l s.daemon.pending) s))
        (ok-injective e))

  kick-queued :
      (watch : Option String) (names : List String) (s : System)
      → busy s.daemon ≡ true
      → kick_names s.daemon watch ≡ ok names
      → kick env watch s ≡ (
        ok (concat ("kicked: " ∷ join ", " names ∷ [])),
        queued (queue_all names s.daemon.pending) s,
      )
  unfolding kick here ◌>>=◌
  kick-queued watch names s hb hn = told (kick_names s.daemon watch) names s hb hn

  -- A kick that comes while a run or a validation is under way and whose watches are found is
  -- acknowledged with their names, and afterwards each of them waits in the queue; what waited
  -- before stands in front as it stood, what is added bears the trigger `kick`, and nothing but the
  -- queue changes.
  pub kick-Heard :
      (watch : Option String) (names : List String) (s : System)
      → busy s.daemon ≡ true
      → kick_names s.daemon watch ≡ ok names
      → Heard names s (kick env watch s)
  kick-Heard watch names s hb hn =
      subst (λ p. Heard names s p) (sym (kick-queued watch names s hb hn)) (queued-Heard names s)

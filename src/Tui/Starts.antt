-- ===== src/Tui/Starts.antt =====
-- crates/deptui/src/app.rs: which host of a queue is started, and what is left to do then.
use deptui.Prelude.{
  ℕ, ◌+◌, ◌<◌, ◌≡◌, refl, ◌∙◌, sym, ap, subst, String, Bool, true, false, none, some, List, [], ◌∷◌,
  length, arith, filter_by, eq_iff, Bool-cases, inl, inr,
}
use deptui.Prelude.Result.{Result, ok, err}
use deptui.Flake.{Node, has_home, has_system}
use deptui.Deploy.{Mode, ProfileSel, all, system, home}
use deptui.Tui.{App, DeploySession, find_node}
use deptui.Tui.Log.{push_log_tagged}
use deptui.Tui.Queue.{launch, start_host, start_next_in_queue, pick}
use deptui.Tui.Calm.{launched, armed, Calm, Calm-push_log_tagged}
use deptui.Tui.Sound.{Sound, Sound-Calm}
use deptui.Tui.Announced.{Calm-announced}

-- Does the node have what is selected?
unfoldable pub serves : ProfileSel → Node → Bool
serves all n = true
serves home n = has_home n
serves system n = has_system n

-- A host that a batch can deploy: the flake has it, with the selected profile.
unfoldable pub ready : List Node → ProfileSel → String → Bool
unfolding serves
ready nodes profile name = elim (find_node name nodes) [ none ↦ false | some n ↦ serves profile n ]

-- A deploy of the node was started, with these hosts to follow.
pub record Started (node : Node) (queue : List String) (profile : ProfileSel) (a b : App)
    : Type 0 where
  pub launches : launched b.effects ≡ node.name ∷ launched a.effects
  pub session : DeploySession
  pub running : b.deploy ≡ some session
  pub current : session.current ≡ node.name
  pub waiting : session.queue ≡ queue
  pub selection : session.profile ≡ profile
  pub same_nodes : b.nodes ≡ a.nodes

Started-host :
    (node : Node) (queue : List String) (mode : Mode) (profile : ProfileSel) (total done : ℕ)
    (a : App)
    → Started node queue profile a (start_host node queue mode profile total done a)
unfolding start_host launch
Started-host node queue mode profile total done a =
    let calm = Calm-announced node.name mode profile total done a in
    record {
      launches = ap (λ xs. node.name ∷ xs) calm.launches;
      session = record {
        cancel = true;
        stdin_tx = _;
        current = node.name;
        queue = queue;
        mode = mode;
        profile = profile;
        total = total;
        done = done;
      };
      running = refl;
      current = refl;
      waiting = refl;
      selection = refl;
      same_nodes = calm.same_nodes;
    }

pub Calm-unarmed : {a b : App} → Calm a b → armed a.input ≡ false → armed b.input ≡ false
Calm-unarmed {a} {b} c h = elim (Bool-cases (armed b.input)) [
  | inl e ↦ ap armed (c.disarmed e) ∙ h
  | inr e ↦ e
]

Sound-host :
    (node : Node) (queue : List String) (mode : Mode) (profile : ProfileSel) (total done : ℕ)
    (a : App)
    → done + 1 + length queue ≡ total
    → armed a.input ≡ false
    → Sound a
    → Sound (start_host node queue mode profile total done a)
unfolding start_host launch
Sound-host node queue mode profile total done a fits calm_input h =
    let c = Calm-announced node.name mode profile total done a in
    let g = Sound-Calm c h in
    record {
      modal = λ e. cc (Calm-unarmed c calm_input);
      stashed = g.stashed;
      progress = fits;
      bounded = g.bounded;
      in_range = g.in_range;
    }

-- What the start of a queue comes to: nothing is left to deploy, or the first host that can be is
-- started, and the same question is left for the hosts behind it.
pub data Next (queue : List String) (profile : ProfileSel) (a b : App) : Type 0 where
  over :
      filter_by (ready a.nodes profile) queue ≡ []
      → launched b.effects ≡ launched a.effects
      → b.deploy ≡ a.deploy
      → Next queue profile a b
  first :
      (node : Node) (rest : List String)
      → filter_by (ready a.nodes profile) queue ≡ node.name ∷ filter_by (ready a.nodes profile) rest
      → length rest < length queue
      → Started node rest profile a b
      → Next queue profile a b

module _ {A : Type 0} (p : A → Bool) (x : A) (xs : List A) where
  pub filter-skip : p x ≡ false → filter_by p (x ∷ xs) ≡ filter_by p xs
  filter-skip e = rw (e, filter_by) refl

  pub filter-keep : p x ≡ true → filter_by p (x ∷ xs) ≡ x ∷ filter_by p xs
  filter-keep e = rw (e, filter_by) refl

Started-Calm :
    {node : Node} {rest : List String} {profile : ProfileSel} {a b c : App}
    → Calm a b
    → Started node rest profile b c
    → Started node rest profile a c
Started-Calm {node} h s = record {
  launches = s.launches ∙ ap (λ xs. node.name ∷ xs) h.launches;
  session = s.session;
  running = s.running;
  current = s.current;
  waiting = s.waiting;
  selection = s.selection;
  same_nodes = s.same_nodes ∙ h.same_nodes;
}

-- A host that is passed over leaves the question to those behind it.
Next-skip :
    {queue : List String} {profile : ProfileSel} {a b c : App} (name : String)
    → ready a.nodes profile name ≡ false
    → Calm a b
    → Next queue profile b c
    → Next (name ∷ queue) profile a c
Next-skip {queue} {profile} {a} {b} name r h (over e l d) =
    over
      (filter-skip (ready a.nodes profile) name queue r
        ∙ subst (λ nodes. filter_by (ready nodes profile) queue ≡ []) h.same_nodes e)
      (l ∙ h.launches) (d ∙ h.same_deploy)
Next-skip {queue} {profile} {a} {b} name r h (first node rest e less s) =
    first node rest
      (filter-skip (ready a.nodes profile) name queue r
        ∙ subst
            (λ nodes.
              filter_by (ready nodes profile) queue
              ≡ node.name ∷ filter_by (ready nodes profile) rest)
            h.same_nodes e)
      (omega arith) (Started-Calm h s)

find_node-name :
    (name : String) (nodes : List Node) (n : Node) → find_node name nodes ≡ some n → n.name ≡ name
unfolding find_node
find_node-name name [] n h = cc
find_node-name name (x ∷ nodes) n h =
    ground (arith, eq_iff x.name name, find_node-name name nodes n)

pick-err :
    (name : String) (profile : ProfileSel) (nodes : List Node) (m : String)
    → pick name profile (find_node name nodes) ≡ err m
    → ready nodes profile name ≡ false
unfolding pick ready
pick-err name profile nodes m h = ground arith

pick-ok :
    (name : String) (profile : ProfileSel) (nodes : List Node) (n : Node)
    → pick name profile (find_node name nodes) ≡ ok n
    → (ready nodes profile name ≡ true) × (n.name ≡ name)
unfolding pick ready
pick-ok name profile nodes n h = ground (arith, find_node-name name nodes n)

-- A split on the node that was picked, with what it was picked from.
picked-elim :
    (P : App → Type 0) (r : Result Node) (f : String → App) (g : Node → App)
    → ((m : String) → r ≡ err m → P (f m))
    → ((n : Node) → r ≡ ok n → P (g n))
    → P (elim r [ err m ↦ f m | ok n ↦ g n ])
picked-elim P (err m) f g skip start = skip m refl
picked-elim P (ok n) f g skip start = start n refl

pub Next-queue :
    (queue : List String) (mode : Mode) (profile : ProfileSel) (total done : ℕ) (a : App)
    → Next queue profile a (start_next_in_queue queue mode profile total done a)
unfolding start_next_in_queue
Next-queue [] mode profile total done a = over refl refl refl
Next-queue (name ∷ queue) mode profile total done a =
    picked-elim (Next (name ∷ queue) profile a) (pick name profile (find_node name a.nodes)) _ _
      (λ m e.
        Next-skip name (pick-err name profile a.nodes m e)
          (Calm-push_log_tagged m true (some name) a)
          (Next-queue queue mode profile total (done + 1) (push_log_tagged m true (some name) a)))
      λ n e.
        let (fits, same) = pick-ok name profile a.nodes n e in
        first n queue
          (filter-keep _ name queue fits
            ∙ ap (λ x. x ∷ filter_by (ready a.nodes profile) queue) (sym same))
          (omega arith) (Started-host n queue mode profile total done a)

-- A batch keeps the invariant, if it starts where no mode is armed and no deploy under way.
pub Sound-queue :
    (queue : List String) (mode : Mode) (profile : ProfileSel) (total done : ℕ) (a : App)
    → done + length queue ≡ total
    → armed a.input ≡ false
    → Sound a
    → Sound (start_next_in_queue queue mode profile total done a)
unfolding start_next_in_queue
Sound-queue [] mode profile total done a e i h = h
Sound-queue (name ∷ queue) mode profile total done a e i h =
    picked-elim Sound (pick name profile (find_node name a.nodes)) _ _
      (λ m r.
        Sound-queue queue mode profile total (done + 1) (push_log_tagged m true (some name) a)
          (omega arith) (Calm-unarmed (Calm-push_log_tagged m true (some name) a) i)
          (Sound-Calm (Calm-push_log_tagged m true (some name) a) h))
      λ n r. Sound-host n queue mode profile total done a (omega arith) i h

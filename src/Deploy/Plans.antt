-- ===== src/Deploy/Plans.antt =====
-- crates/deptui-core/src/deploy.rs: `DeployRequest::plan` gives each selected profile the login that fits it.
use deptui.Prelude.{
  String, ◌≡◌, refl, ap, ◌⊎◌, inl, inr, true, not, Option, none, some, List, [], ◌∷◌, map, arith,
  if◌then◌else◌, is_none, all_by, All, Bool-cases,
}
use deptui.Deploy.{
  ProfileInfo, Invocation, DeployRequest, override_fits, selected_profiles, split_invocation,
  plan_override, plan, target_suffix, ProfileSel, all, system, home,
}
use deptui.Prelude.Text.{concat}

-- The login that a profile needs when the user is overridden.
abbrev pub login : String → ProfileInfo → Option String
login user p = if override_fits p user then some user else none

-- What names the selected profiles behind the node: none for all of them.
abbrev pub target : ProfileSel → String
target all = ""
target system = ".system"
target home = ".home"

-- One child for the whole selection, whose profiles all need its login, or one child for each
-- profile, which names that profile and has its login.
abbrev pub Served : ProfileSel → String → List ProfileInfo → List Invocation → Type 0
Served selection user profiles invocations =
    ((inv : Invocation) × (invocations ≡ inv ∷ [])
      × (inv.suffix ≡ target selection)
      × All (λ p. login user p ≡ inv.ssh_user) profiles)
    ⊎ ((map (λ inv. inv.suffix) invocations ≡ map (λ p. concat ("." ∷ p.name ∷ [])) profiles)
        × (map (λ inv. inv.ssh_user) invocations ≡ map (login user) profiles))

All-fit :
    (user : String) (ps : List ProfileInfo)
    → all_by (λ q. override_fits q user) ps ≡ true
    → All (λ p. login user p ≡ some user) ps
All-fit user [] h = tt
All-fit user (p ∷ ps) h = (ground arith, All-fit user ps (ground arith))

none_fits :
    (user : String) (ps : List ProfileInfo)
    → all_by (λ q. not (override_fits q user)) ps ≡ true
    → All (λ p. login user p ≡ none) ps
none_fits user [] h = tt
none_fits user (p ∷ ps) h = (ground arith, none_fits user ps (ground arith))

suffix-target : (selection : ProfileSel) → target_suffix selection ≡ target selection
unfolding target_suffix
suffix-target all = refl
suffix-target system = refl
suffix-target home = refl

split_logins :
    (user : String) (ps : List ProfileInfo)
    → map (λ inv. inv.ssh_user) (map (split_invocation user) ps) ≡ map (login user) ps
unfolding split_invocation
split_logins user [] = refl
split_logins user (p ∷ ps) = ap (λ l. login user p ∷ l) (split_logins user ps)

split_targets :
    (user : String) (ps : List ProfileInfo)
    → map (λ inv. inv.suffix) (map (split_invocation user) ps)
      ≡ map (λ p. concat ("." ∷ p.name ∷ [])) ps
unfolding split_invocation
split_targets user [] = refl
split_targets user (p ∷ ps) = ap (λ l. concat ("." ∷ p.name ∷ []) ∷ l) (split_targets user ps)

plan_override-Served :
    (r : DeployRequest) (user : String) (ps : List ProfileInfo)
    → Served r.profile user ps (plan_override r user ps)
unfolding plan_override
plan_override-Served r user [] = inl (_, refl, suffix-target r.profile, tt)
plan_override-Served r user (p ∷ ps) =
    elim (Bool-cases (all_by (λ q. override_fits q user) (p ∷ ps))) [
      | inl fit ↦ rw (fit) (inl (_, refl, suffix-target r.profile, All-fit user (p ∷ ps) fit))
      | inr mixed ↦
          rw (mixed) (elim (Bool-cases (all_by (λ q. not (override_fits q user)) (p ∷ ps))) [
            | inl misfit ↦
                rw (misfit) (inl (_, refl, suffix-target r.profile, none_fits user (p ∷ ps) misfit))
            | inr split ↦ rw (split) (inr (split_targets user (p ∷ ps), split_logins user (p ∷ ps)))
          ])
    ]

withheld_split :
    (user : String) (ps : List ProfileInfo)
    → All
        (λ (inv : Invocation). inv.override_withheld ≡ is_none inv.ssh_user)
        (map (split_invocation user) ps)
unfolding split_invocation
withheld_split user [] = tt
withheld_split user (p ∷ ps) = (ground arith, withheld_split user ps)

withheld_override :
    (r : DeployRequest) (user : String) (ps : List ProfileInfo)
    → All
        (λ (inv : Invocation). inv.override_withheld ≡ is_none inv.ssh_user)
        (plan_override r user ps)
unfolding plan_override
withheld_override r user [] = (refl, tt)
withheld_override r user (p ∷ ps) =
    elim (Bool-cases (all_by (λ q. override_fits q user) (p ∷ ps))) [
      | inl fit ↦ rw (fit) (refl, tt)
      | inr mixed ↦
          rw (mixed) (elim (Bool-cases (all_by (λ q. not (override_fits q user)) (p ∷ ps))) [
            | inl misfit ↦ rw (misfit) (refl, tt)
            | inr split ↦ rw (split) (withheld_split user (p ∷ ps))
          ])
    ]

-- With an override of the ssh user set, every selected profile is deployed with the login that fits
-- it: either one child serves them all, is asked for the selection as it stands and has the login
-- that each of them needs, or each profile has a child of its own, in order, that is asked for this
-- profile and has its login; a child says that the override was withheld exactly if it has no
-- login.
pub plan-Served :
    (r : DeployRequest) (user : String)
    → r.ssh_override.user ≡ some user
    → Served r.profile user (selected_profiles r) (plan r)
      × All (λ (inv : Invocation). inv.override_withheld ≡ is_none inv.ssh_user) (plan r)
unfolding plan
plan-Served r user h = rw (h) (
  plan_override-Served r user (selected_profiles r),
  withheld_override r user (selected_profiles r),
)

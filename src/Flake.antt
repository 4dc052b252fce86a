-- ===== src/Flake.antt =====
-- crates/deptui-core/src/flake.rs: the nodes of `deploy.nodes` and the order of their profiles.
pub mod Discover
pub mod Order
use deptui.Prelude.{
  String, Bool, true, false, ◌&&◌, not, Option, none, some, List, [], ◌∷◌, ◌++◌, if◌then◌else◌,
}
use deptui.Prelude.Text.{member}
use deptui.Prelude.Map.{Map, keys, contains_key, get}

pub record Profile : Type 0 where
  pub user : Option String
  pub ssh_user : Option String

pub record Node : Type 0 where
  pub name : String
  pub hostname : String
  pub ssh_user : Option String
  pub profiles : Map Profile
  pub profiles_order : Option (List String)

unfoldable pub has_system : Node → Bool
unfolding get
has_system n = contains_key "system" n.profiles

unfoldable pub has_home : Node → Bool
unfolding get
has_home n = contains_key "home" n.profiles

-- The loop over `profilesOrder`: known names, each once.
unfoldable pub push_known : Map Profile → List String → List String → List String
push_known profiles out [] = out
push_known profiles out (name ∷ order) =
    push_known profiles
      (if contains_key name profiles && not (member name out) then out ++ name ∷ [] else out) order

-- The loop over the profiles' keys: those not listed yet.
unfoldable pub push_rest : List String → List String → List String
push_rest out [] = out
push_rest out (name ∷ names) = push_rest (if member name out then out else out ++ name ∷ []) names

unfoldable pub first_profiles : Map Profile → Option (List String) → List String
unfolding push_known
first_profiles profiles (some order) = push_known profiles [] order
first_profiles profiles none = if contains_key "system" profiles then "system" ∷ [] else []

unfoldable pub ordered_profiles : Node → List String
unfolding first_profiles push_rest get
ordered_profiles n = push_rest (first_profiles n.profiles n.profiles_order) (keys n.profiles)

-- ===== src/Flake/Order.antt =====
-- crates/deptui-core/src/flake.rs: the order of a node's profiles has each of them exactly once.
use deptui.Prelude.{
  String, ◌≡◌, refl, ◌∙◌, Bool, false, ◌&&◌, ◌||◌, not, Option, none, some, List, [], ◌∷◌, ◌++◌,
  ◌==◌, arith, eq_iff, Bool-cases, inl, inr,
}
use deptui.Prelude.Text.{member}
use deptui.Prelude.Map.{Map, get, keys, contains_key}
use deptui.Flake.{Profile, Node, push_known, push_rest, first_profiles, ordered_profiles}

-- No name is there twice.
abbrev pub Once : List String → Type 0
Once [] = Unit {0}
Once (x ∷ xs) = (member x xs ≡ false) × Once xs

member-append :
    (a x : String) (xs : List String) → member a (xs ++ x ∷ []) ≡ (member a xs || x == a)
member-append a x [] = ground arith
member-append a x (y ∷ ys) = ground (arith, member-append a x ys)

Once-append : (x : String) (xs : List String) → member x xs ≡ false → Once xs → Once (xs ++ x ∷ [])
Once-append x [] h o = (refl, tt)
Once-append x (y ∷ ys) h o = (
  ground (arith, member-append y x ys, eq_iff x y, eq_iff y x, o.0),
  Once-append x ys (ground arith) o.1,
)

member-keys : {V : Type 0} (a : String) (m : Map V) → member a (keys m) ≡ contains_key a m
unfolding get
member-keys a [] = refl
member-keys a ((k, v) ∷ m) = ground (arith, member-keys a m)

Once-push_rest : (out rest : List String) → Once out → Once (push_rest out rest)
unfolding push_rest
Once-push_rest out [] o = o
Once-push_rest out (x ∷ rest) o = elim (Bool-cases (member x out)) [
  | inl yes' ↦ rw (yes') (Once-push_rest out rest o)
  | inr no' ↦ rw (no') (Once-push_rest (out ++ x ∷ []) rest (Once-append x out no' o))
]

member-push_rest :
    (a : String) (out rest : List String)
    → member a (push_rest out rest) ≡ (member a out || member a rest)
unfolding push_rest
member-push_rest a out [] = ground arith
member-push_rest a out (x ∷ rest) = elim (Bool-cases (member x out)) [
  | inl yes' ↦ rw (yes') (ground (arith, member-push_rest a out rest, eq_iff x a))
  | inr no' ↦
      rw (no') (ground (arith, member-push_rest a (out ++ x ∷ []) rest, member-append a x out))
]

module _ (profiles : Map Profile) where
  -- A listed name that the node does not have.
  abbrev stranger : String → List String → Bool
  stranger a out = member a out && not (contains_key a profiles)

  Once-push_known : (out order : List String) → Once out → Once (push_known profiles out order)
  unfolding push_known
  Once-push_known out [] o = o
  Once-push_known out (x ∷ order) o =
      elim (Bool-cases (contains_key x profiles && not (member x out))) [
        | inl yes' ↦
            rw (yes') (Once-push_known (out ++ x ∷ []) order (Once-append x out (ground arith) o))
        | inr no' ↦ rw (no') (Once-push_known out order o)
      ]

  stranger-push_known :
      (a : String) (out order : List String)
      → stranger a out ≡ false
      → stranger a (push_known profiles out order) ≡ false
  unfolding push_known
  stranger-push_known a out [] h = h
  stranger-push_known a out (x ∷ order) h =
      elim (Bool-cases (contains_key x profiles && not (member x out))) [
        | inl yes' ↦ rw (yes') (
            stranger-push_known a (out ++ x ∷ []) order
              (ground (arith, member-append a x out, eq_iff x a)))
        | inr no' ↦ rw (no') (stranger-push_known a out order h)
      ]

  Once-first : (order : Option (List String)) → Once (first_profiles profiles order)
  unfolding first_profiles
  Once-first (some order) = Once-push_known [] order tt
  Once-first none = elim (Bool-cases (contains_key "system" profiles)) [
    | inl yes' ↦ rw (yes') (refl, tt)
    | inr no' ↦ rw (no') tt
  ]

  stranger-first :
      (a : String) (order : Option (List String))
      → stranger a (first_profiles profiles order) ≡ false
  unfolding first_profiles
  stranger-first a (some order) = stranger-push_known a [] order refl
  stranger-first a none = ground (arith, eq_iff "system" a)

-- Whatever `profilesOrder` lists, the order of a node's profiles has no profile twice and has
-- exactly the profiles of the node.
pub ordered_profiles-Once :
    (n : Node) (a : String)
    → Once (ordered_profiles n) × (member a (ordered_profiles n) ≡ contains_key a n.profiles)
unfolding ordered_profiles
ordered_profiles-Once n a =
    let first = first_profiles n.profiles n.profiles_order in
    (
      Once-push_rest first (keys n.profiles) (Once-first n.profiles n.profiles_order),
      member-push_rest a first (keys n.profiles)
          ∙ ground (arith, stranger-first n.profiles a n.profiles_order, member-keys a n.profiles),
    )

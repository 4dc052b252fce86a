-- ===== src/Gitwatch.antt =====
-- crates/deptui-agent/src/gitwatch.rs: update detection and the agent's private clones.
pub mod Checkout
use Prim.Native.Char.{code}
use Prim.Native.String
use deptui.Prelude.{
  ℕ, String, Bool, true, false, ◌&&◌, not, Option, none, some, List, [], ◌∷◌, ◌==◌, if◌then◌else◌,
  same_number, or_else,
}
use deptui.Prelude.Text.{concat, trim, lines, split_whitespace}
use deptui.Prelude.Result.{Result, ok, err, try_result, with_context}
use deptui.Config.{WatchConfig}
use deptui.Effects.{
  Process, Output, Env, Act, pure, fail, lift, attempt, look, ask, map_result, output,
  output_within, made_dir, ◌>>=◌, ◌>>◌,
}

abbrev pub first_arg : List String → String
first_arg [] = ""
first_arg (a ∷ _) = a

-- Standard output of a child that succeeded, its trimmed standard error in the message of one that
-- did not.
unfoldable pub checked : String → Output → Result String
checked what out =
    if out.success
    then ok out.stdout
    else err (concat (what ∷ " failed (" ∷ out.status ∷ "): " ∷ trim out.stderr ∷ []))

-- A repo-less call is anchored at `/`; `-C` names the repository otherwise.
unfoldable pub git_process : Option String → List String → Process
git_process dir args = record {
  program = "git";
  args = elim dir [ none ↦ args | some d ↦ "-C" ∷ d ∷ args ];
  dir = elim dir [ none ↦ some "/" | some d ↦ none ];
  vars = ("GIT_TERMINAL_PROMPT", "0") ∷ [];
}

last_char : ℕ → String → ℕ
last_char d String.[] = d
last_char d (String.◌∷◌ c s) = last_char (code c) s

-- `Path::join` with a relative path.
unfoldable pub join_path : String → String → String
unfolding last_char
join_path a b =
    if same_number (last_char 0 a) b'/' then concat (a ∷ b ∷ []) else concat (a ∷ "/" ∷ b ∷ [])

unfoldable pub clones_dir : String → String
unfolding join_path
clones_dir state_dir = join_path state_dir "clones"

unfoldable pub clone_dir : String → String → String
unfolding clones_dir
clone_dir state_dir watch = join_path (clones_dir state_dir) watch

-- The commits of the plain ref and of the peeled tag that a line of `ls-remote` names.
pub record Refs : Type 0 where
  pub plain : Option String
  pub peeled : Option String

unfoldable pub peeled_name : String → String
peeled_name refspec = concat (refspec ∷ "^{}" ∷ [])

unfoldable pub read_words : String → Refs → List String → Refs
unfolding peeled_name
read_words refspec refs (hash ∷ name ∷ _) =
    if name == refspec
    then record refs { plain = some hash }
    else if name == peeled_name refspec
    then record refs { peeled = some hash }
    else refs
read_words refspec refs _ = refs

unfoldable pub read_refs : String → Refs → List String → Refs
unfolding read_words
read_refs refspec refs [] = refs
read_refs refspec refs (l ∷ rest) =
    read_refs refspec (read_words refspec refs (split_whitespace l)) rest

unfoldable pub head_of : String → String → Option String
unfolding read_refs
head_of refspec out =
    let refs = read_refs refspec (record { plain = none; peeled = none }) (lines out) in
    or_else refs.peeled refs.plain

-- The three settings that make git resolve `git-crypt` by PATH.
abbrev pins : List (String × String)
pins =
    ("filter.git-crypt.smudge", "\"git-crypt\" smudge")
    ∷ ("filter.git-crypt.clean", "\"git-crypt\" clean")
    ∷ ("diff.git-crypt.textconv", "\"git-crypt\" diff")
    ∷ []

module _ (env : Env) where
  unfoldable pub git : Option String → List String → Act String
  unfolding git_process checked output ◌>>=◌ map_result
  git dir args = do
    out ← map_result (with_context "spawning git") (output env (git_process dir args))
    lift (checked (concat ("git " ∷ first_arg args ∷ [])) out)

  unfoldable pub ls_remote : String → String → Act (Option String)
  unfolding git head_of
  ls_remote repo refspec = do
    out ←
        map_result (with_context (concat ("polling " ∷ repo ∷ " for " ∷ refspec ∷ [])))
          (git none ("ls-remote" ∷ repo ∷ refspec ∷ peeled_name refspec ∷ []))
    pure (head_of refspec out)

  unfoldable pub git_crypt : String → List String → Act String
  unfolding checked output ◌>>=◌ map_result
  git_crypt dir args = do
    out ←
        map_result (with_context "spawning git-crypt (is it installed alongside the agent?)")
          (output env (record { program = "git-crypt"; args = args; dir = some dir; vars = [] }))
    lift (checked (concat ("git-crypt " ∷ first_arg args ∷ [])) out)

  unfoldable pub set_pins : String → List (String × String) → Act (Unit {0})
  unfolding git
  set_pins dir [] = pure tt
  set_pins dir ((key, value) ∷ rest) = do
    git (some dir) ("config" ∷ key ∷ value ∷ []) >>= λ out. set_pins dir rest

  unfoldable pub repin_git_crypt_filters : String → Act (Unit {0})
  unfolding set_pins
  repin_git_crypt_filters dir = set_pins dir pins

  hook_reply : String → Option (Result Output) → Result Output
  hook_reply cmd none = err (concat ("post_checkout hook timed out after 10 minutes: " ∷ cmd ∷ []))
  hook_reply cmd (some r) = with_context "spawning post_checkout hook" r

  unfoldable pub run_post_checkout : String → String → Act (Unit {0})
  unfolding hook_reply checked output_within ◌>>=◌
  run_post_checkout dir cmd = do
    reply ← output_within env 600 (record {
      program = "sh";
      args = "-c" ∷ cmd ∷ [];
      dir = some dir;
      vars = ("GIT_TERMINAL_PROMPT", "0") ∷ ("SSH_ASKPASS", "/bin/false") ∷ [];
    })
    out ← lift (hook_reply cmd reply)
    lift (try_result (checked "post_checkout hook" out) λ stdout. ok tt)

  -- Any failure is `false`: unverifiable means hold.
  unfoldable pub is_ancestor : String → String → String → Act Bool
  unfolding git attempt ◌>>=◌
  is_ancestor dir ancestor descendant = do
    r ← attempt (git (some dir) ("merge-base" ∷ "--is-ancestor" ∷ ancestor ∷ descendant ∷ []))
    pure (elim r [ ok out ↦ true | err e ↦ false ])

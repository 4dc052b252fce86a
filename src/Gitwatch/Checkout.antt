-- ===== src/Gitwatch/Checkout.antt =====
-- crates/deptui-agent/src/gitwatch.rs: `ensure_checkout`, a prepared working tree of one commit.
use deptui.Prelude.{String, Bool, not, Option, none, some, [], ◌∷◌, if◌then◌else◌}
use deptui.Prelude.Text.{concat}
use deptui.Prelude.Result.{ok, err, with_context}
use deptui.Config.{WatchConfig}
use deptui.Effects.{Env, Act, pure, fail, attempt, look, ask, map_result, made_dir, ◌>>=◌, ◌>>◌}
use deptui.Gitwatch.{
  join_path, clones_dir, clone_dir, git, git_crypt, repin_git_crypt_filters, run_post_checkout,
}

abbrev no_key : String → String
no_key key = concat (
    "git_crypt_key_file " ∷ key
    ∷ " does not exist (is the secret provisioned on this host, readable by the agent user?)" ∷ [])

abbrev unlocking : String → String
unlocking dir = concat (
    "unlocking git-crypt in " ∷ dir
    ∷ " (the key must be an exported symmetric key from `git-crypt export-key`; GPG mode is not "
    ∷ "supported — the agent is headless)" ∷ [])

module _ (env : Env) where
  unfoldable pub clone_if_missing : String → WatchConfig → String → Act (Unit {0})
  unfolding ◌>>=◌ look ask map_result
  clone_if_missing state_dir w dir = do
    there ← look λ calls. env.exists calls (join_path dir ".git")
    if there then pure tt else do
      map_result (with_context (concat ("creating " ∷ clones_dir state_dir ∷ [])))
          (ask (made_dir (clones_dir state_dir)) λ calls. env.make_dir calls (clones_dir state_dir))
      map_result (with_context (concat ("cloning " ∷ w.repo ∷ [])))
            (git env none ("clone" ∷ "--no-checkout" ∷ w.repo ∷ dir ∷ []))
          >>= λ out. pure tt

  -- The commit itself if the server allows that, every ref otherwise.
  unfoldable pub fetch : WatchConfig → String → String → Act (Unit {0})
  unfolding ◌>>=◌ attempt map_result
  fetch w dir rev = do
    r ← attempt (git env (some dir) ("fetch" ∷ "--quiet" ∷ "origin" ∷ rev ∷ []))
    elim r [
      | ok out ↦ pure tt
      | err e ↦
          map_result (with_context (concat ("fetching " ∷ w.repo ∷ [])))
            (git env (some dir) ("fetch" ∷ "--quiet" ∷ "--tags" ∷ "origin" ∷ []))
          >>= λ out. pure tt
    ]

  unfoldable pub unlocked : String → Act Bool
  unfolding look
  unlocked dir = look λ calls. env.exists calls (join_path dir ".git/git-crypt/keys/default")

  unfoldable pub repin_unlocked : String → Option String → Act (Unit {0})
  unfolding unlocked ◌>>=◌
  repin_unlocked dir none = pure tt
  repin_unlocked dir (some key) = do
    open_already ← unlocked dir
    if open_already then repin_git_crypt_filters env dir else pure tt

  unfoldable pub unlock : String → Option String → Act (Unit {0})
  unfolding unlocked ◌>>=◌ look map_result
  unlock dir none = pure tt
  unlock dir (some key) = do
    open_already ← unlocked dir
    if open_already then pure tt else do
      there ← look λ calls. env.exists calls key
      if not there then fail (no_key key) else do
        map_result (with_context (unlocking dir)) (git_crypt env dir ("unlock" ∷ key ∷ []))
            >>= λ out. repin_git_crypt_filters env dir

  unfoldable pub after_checkout : String → Option String → Act (Unit {0})
  after_checkout dir none = pure tt
  after_checkout dir (some cmd) = run_post_checkout env dir cmd

  unfoldable pub ensure_checkout : String → WatchConfig → String → Act String
  unfolding ◌>>=◌ map_result clone_if_missing fetch repin_unlocked unlock after_checkout
  ensure_checkout state_dir w rev = do
    let dir = clone_dir state_dir w.name
    clone_if_missing state_dir w dir
    fetch w dir rev
    repin_unlocked dir w.git_crypt_key_file
    map_result (with_context (concat ("checking out " ∷ rev ∷ " in " ∷ dir ∷ [])))
          (git env (some dir) ("checkout" ∷ "--quiet" ∷ "--force" ∷ "--detach" ∷ rev ∷ []))
        >>= λ out. unlock dir w.git_crypt_key_file >>= λ u.
            after_checkout dir w.post_checkout >>= λ v. pure dir

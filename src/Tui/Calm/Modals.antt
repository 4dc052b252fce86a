-- ===== src/Tui/Calm/Modals.antt =====
-- crates/deptui/src/app.rs: the keys of the popups other than the confirmation of a deploy and
-- the password prompt.
use deptui.Prelude.{ℕ, ℤ, ◌≡◌, refl, String, Bool, false, Option, none, some, List, [], ◌∷◌, arith}
use deptui.Prelude.Text.{trim}
use deptui.Ssh.{SshOverride}
use deptui.Tui.{
  App, World, InputMode, OverrideField, hostname, user, identity, opts, normal, selected_node,
  override_for,
}
use deptui.Tui.Modal.{
  Key, set_input, store_override, save_field, handle_key_confirm_quit, commit_search,
  handle_key_search_log, handle_key_search_help, non_empty, set_field,
}
use deptui.Tui.Overrides.{
  begin_edit_override, handle_key_overrides_menu, commit_field, handle_key_edit_override,
  commit_identity, pick, picker_delta, type_identity, handle_key_identity_picker,
}
use deptui.Tui.Calm.{
  armed, Calm, Calm-refl, Calm-trans, Calm-option, Calm-set_input, choose-All, ◌▹◌, tagged,
}
use deptui.Tui.Calm.Cursors.{Calm-jump_initial}

pub moded : {a b : App} (m : InputMode) → armed m ≡ false → Calm a b → Calm a (set_input m b)
moded {b = b} m e h = Calm-trans h (Calm-set_input m b e)

Calm-store : (node : String) (o : SshOverride) (a : App) → Calm a (store_override node o a)
unfolding store_override
Calm-store node o a = ground arith

Calm-save :
    (field : OverrideField) (buf node : String) (a : App) → Calm a (save_field field buf node a)
unfolding save_field
Calm-save field buf node a =
    tagged _ _ _ (Calm-store node (set_field field (non_empty (trim buf)) (override_for a node)) a)

Calm-begin :
    (w : World) (field : OverrideField) (node : String) (a : App)
    → Calm a (begin_edit_override w field node a)
unfolding begin_edit_override
Calm-begin w hostname node a = moded _ refl (Calm-refl a)
Calm-begin w user node a = moded _ refl (Calm-refl a)
Calm-begin w identity node a = moded _ refl (Calm-refl a)
Calm-begin w opts node a = moded _ refl (Calm-refl a)

pub Calm-overrides_menu :
    (w : World) (key : Key) (a : App) → Calm a (handle_key_overrides_menu w key a)
unfolding handle_key_overrides_menu
Calm-overrides_menu w key a = Calm-option a (selected_node a) _ _ (moded _ refl (Calm-refl a)) λ n.
    choose-All (Calm a) _ _
      (moded _ refl (Calm-refl a)
        ▹ Calm-begin w hostname n.name a
        ▹ Calm-begin w user n.name a
        ▹ Calm-begin w identity n.name a
        ▹ Calm-begin w opts n.name a
        ▹ moded _ refl (tagged _ _ _ (ground arith))
        ▹ tt)
      (moded _ refl (Calm-refl a))

Calm-commit : (field : OverrideField) (buf : String) (a : App) → Calm a (commit_field field buf a)
unfolding commit_field
Calm-commit field buf a =
    Calm-option a (selected_node a) _ _ (moded _ refl (Calm-refl a))
      λ n. moded _ refl (Calm-save field buf n.name a)

pub Calm-edit_override :
    (key : Key) (field : OverrideField) (buf : String) (a : App)
    → Calm a (handle_key_edit_override key field buf a)
unfolding handle_key_edit_override
Calm-edit_override key field buf a =
    choose-All (Calm a) _ _ (moded _ refl (Calm-refl a) ▹ Calm-commit field buf a ▹ tt)
      (moded _ refl (Calm-refl a))

Calm-commit_identity : (buf : String) (a : App) → Calm a (commit_identity buf a)
unfolding commit_identity
Calm-commit_identity buf a =
    Calm-option a (selected_node a) _ _ (moded _ refl (Calm-refl a))
      λ n. moded _ refl (tagged _ _ _ (Calm-store n.name _ a))

Calm-type :
    (key : Key) (entries : List String) (selected : ℕ) (buf : String) (a : App)
    → Calm a (type_identity key entries selected buf a)
unfolding type_identity
Calm-type key entries selected buf a =
    choose-All (Calm a) _ _ (moded _ refl (Calm-refl a) ▹ Calm-commit_identity buf a ▹ tt)
      (moded _ refl (Calm-refl a))

Calm-pick :
    (delta : ℤ) (entries : List String) (selected : ℕ) (a : App)
    → Calm a (pick delta entries selected a)
unfolding pick
Calm-pick delta entries selected a = moded _ refl (Calm-refl a)

pub Calm-identity_picker :
    (key : Key) (entries : List String) (selected : ℕ) (buf : String) (a : App)
    → Calm a (handle_key_identity_picker key entries selected buf a)
unfolding handle_key_identity_picker
Calm-identity_picker key [] selected buf a = Calm-type key [] selected buf a
Calm-identity_picker key (e ∷ entries) selected buf a =
    Calm-option a (picker_delta key) _ _ (Calm-type key (e ∷ entries) selected buf a)
      λ delta. Calm-pick delta (e ∷ entries) selected a

pub Calm-confirm_quit :
    (key : Key) (running : Bool) (a : App) → Calm a (handle_key_confirm_quit key running a)
unfolding handle_key_confirm_quit
Calm-confirm_quit key running a =
    choose-All (Calm a) _ _ (moded _ refl (ground arith) ▹ moded _ refl (Calm-refl a) ▹ tt)
      (moded _ refl (Calm-refl a))

Calm-search : (o : Option String) (a : App) → Calm a (commit_search o a)
unfolding commit_search
Calm-search none a = ground arith
Calm-search (some q) a =
    let b : App = record a { log_search = some q; job_log_scroll = 0 } in
    Calm-trans {b = b} (ground arith) (Calm-jump_initial b)

pub Calm-search_log :
    (key : Key) (buf : String) (a : App) → Calm a (handle_key_search_log key buf a)
unfolding handle_key_search_log
Calm-search_log key buf a =
    choose-All (Calm a) _ _
      (moded _ refl (ground arith)
        ▹ Calm-trans (moded normal refl (Calm-refl a))
            (Calm-search (non_empty (trim buf)) (set_input normal a))
        ▹ tt)
      (moded _ refl (Calm-refl a))

pub Calm-search_help :
    (key : Key) (buf : String) (a : App) → Calm a (handle_key_search_help key buf a)
unfolding handle_key_search_help
Calm-search_help key buf a =
    choose-All (Calm a) _ _ (moded _ refl (ground arith) ▹ moded _ refl (ground arith) ▹ tt)
      (moded _ refl (ground arith))

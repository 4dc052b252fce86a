-- ===== src/Tui/Overrides.antt =====
-- crates/deptui/src/app.rs: the keys of the menu of ssh overrides and of its editors.
use deptui.Prelude.{
  ℕ, ℤ, pos, negsuc, String, false, ◌||◌, ◌&&◌, Option, none, some, List, [], ◌∷◌, ◌==◌, length,
  unwrap_or,
}
use deptui.Prelude.Text.{concat, trim}
use deptui.Prelude.Map.{remove}
use deptui.Prelude.Vectors.{get_elem?, position, step_index}
use deptui.Tui.{
  App, World, OverrideField, normal, overrides_menu, edit_override, identity_picker, hostname, user,
  identity, opts, selected_node, override_for,
}
use deptui.Tui.Log.{push_log_tagged}
use deptui.Tui.Modal.{
  Key, choose, down, edit, enter, esc, field_value, is_char, is_key, non_empty, save_field,
  set_input, store_override, up,
}

unfoldable pub begin_edit_override : World → OverrideField → String → App → App
begin_edit_override w identity node a =
    let buf = field_value identity (override_for a node) in
    let entries = w.ssh_keys a.effects in
    set_input (identity_picker entries (unwrap_or (position (λ p. p == buf) entries) 0) buf) a
begin_edit_override w field node a =
    set_input (edit_override field (field_value field (override_for a node))) a

-- With no host to select, the menu is gone at any key.
unfoldable pub handle_key_overrides_menu : World → Key → App → App
handle_key_overrides_menu w key a = elim (selected_node a) [
  | none ↦ set_input normal a
  | some n ↦
      choose
        ((is_key esc key.code, set_input normal a)
          ∷ (is_char "h" key.code, begin_edit_override w hostname n.name a)
          ∷ (is_char "u" key.code, begin_edit_override w user n.name a)
          ∷ (is_char "k" key.code, begin_edit_override w identity n.name a)
          ∷ (is_char "o" key.code, begin_edit_override w opts n.name a)
          ∷ (
            is_char "c" key.code,
            set_input normal (
                push_log_tagged (concat ("→ cleared SSH overrides for " ∷ n.name ∷ [])) false
                  (some n.name) (record a { overrides = remove n.name a.overrides })),
          )
          ∷ [])
        (set_input overrides_menu a)
]

unfoldable pub commit_field : OverrideField → String → App → App
commit_field field buf a = elim (selected_node a) [
  | none ↦ set_input normal a
  | some n ↦ set_input normal (save_field field buf n.name a)
]

unfoldable pub handle_key_edit_override : Key → OverrideField → String → App → App
handle_key_edit_override key field buf a =
    choose
      ((is_key esc key.code, set_input normal a)
        ∷ (is_key enter key.code, commit_field field buf a)
        ∷ [])
      (set_input (edit_override field (edit false key.code buf)) a)

unfoldable pub commit_identity : String → App → App
commit_identity buf a = elim (selected_node a) [
  | none ↦ set_input normal a
  | some n ↦
      let value = non_empty (trim buf) in
      set_input normal (
        push_log_tagged
          (concat ("→ set identity file for " ∷ n.name ∷ ": " ∷ unwrap_or value "(cleared)" ∷ []))
          false (some n.name)
          (store_override n.name (record (override_for a n.name) { identity = value }) a))
]

-- The picker with the highlight moved, and the buffer with it.
unfoldable pub pick : ℤ → List String → ℕ → App → App
pick delta entries selected a =
    let next = step_index selected delta (length entries) in
    set_input (identity_picker entries next (unwrap_or (get_elem? entries next) "")) a

unfoldable pub picker_delta : Key → Option ℤ
picker_delta key =
    choose
      ((
        key.control && (is_char "j" key.code || is_char "J" key.code) || is_key down key.code,
        some (pos 1),
      )
        ∷ (
          key.control && (is_char "k" key.code || is_char "K" key.code) || is_key up key.code,
          some (negsuc 0),
        )
        ∷ [])
      none

unfoldable pub type_identity : Key → List String → ℕ → String → App → App
type_identity key entries selected buf a =
    choose
      ((is_key esc key.code, set_input normal a)
        ∷ (is_key enter key.code, commit_identity buf a)
        ∷ [])
      (set_input (identity_picker entries selected (edit key.control key.code buf)) a)

unfoldable pub handle_key_identity_picker : Key → List String → ℕ → String → App → App
handle_key_identity_picker key [] selected buf a = type_identity key [] selected buf a
handle_key_identity_picker key (e ∷ entries) selected buf a = elim (picker_delta key) [
  | some delta ↦ pick delta (e ∷ entries) selected a
  | none ↦ type_identity key (e ∷ entries) selected buf a
]

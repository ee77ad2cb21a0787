-- ===== src/Studio/Layouts.antt =====
-- useCustomLayout.ts of features/studio: the hook that edits layouts.
use Prim.Native.String.{String, ◌++◌ as append}
use text.Mathlib.Text.{◌==◌ as str_eq}
use lookauniversalremote.Prelude.{
  ℕ, if◌then◌else◌, Bool, false, List, [], ◌∷◌, ◌++◌, map, Option, none, some,
}
use lookauniversalremote.Studio.Types.{TouchElementType, Orientation, CustomLayout, Reals}
use lookauniversalremote.Studio.Storage.{
  Json, LocalStorage, find, save_layout, load_all_layouts, get_active_layout, set_active_layout_id,
  delete_layout,
}
use lookauniversalremote.Studio.Elements.{
  ElementUpdates, given, is_preset_layout, update_one, new_element, without_element,
}

-- The hook's state, with the storage that it works on.
pub record Studio (D R : Type 0) : Type 0 where
  pub storage : LocalStorage R
  pub all_layouts : List (CustomLayout D)
  pub active_layout : CustomLayout D
  pub selected_element_id : Option String

module _ {D R : Type 0} (n : Reals D) (json : Json D R) where
  unfoldable pub refresh_layouts : Studio D R → Studio D R
  unfolding load_all_layouts get_active_layout
  refresh_layouts s = record s {
    all_layouts = load_all_layouts n json s.storage;
    active_layout = get_active_layout n json s.storage;
  }

  unfoldable pub select_layout : String → Studio D R → Studio D R
  unfolding load_all_layouts set_active_layout_id
  select_layout id s =
      let t = record s { storage = set_active_layout_id n json id s.storage } in
      elim (find id (load_all_layouts n json t.storage)) [
        | none ↦ t
        | some l ↦ record t { active_layout = l; selected_element_id = none }
      ]

  -- A new layout is saved and made the active one.
  abbrev pub save_new : Bool → ℕ → CustomLayout D → Studio D R → Studio D R
  unfolding refresh_layouts save_layout set_active_layout_id
  save_new fits now l s = refresh_layouts (record s {
    storage = set_active_layout_id n json l.id (save_layout n json fits now l s.storage);
  })

  -- `id` is the text that is made from the time.
  unfoldable pub create_new_layout :
      Bool → ℕ → String → String → Orientation → Studio D R → Studio D R
  unfolding save_new
  create_new_layout fits now id name orientation s =
      save_new fits now
        (record {
          id = id;
          name = if str_eq name "" then "My Custom Layout" else name;
          description = "Customized touch controller layout";
          orientation = orientation;
          elements = [];
          grid_snap = n.whole 16;
          is_preset = some false;
          created_at = now;
          updated_at = now;
        })
        s

  unfoldable pub duplicate_layout : Bool → ℕ → String → String → Studio D R → Studio D R
  unfolding save_new
  duplicate_layout fits now new_id id s =
      let source = given (find id s.all_layouts) s.active_layout in
      save_new fits now
        (record source {
          id = new_id;
          name = append source.name " (Copy)";
          is_preset = some false;
          created_at = now;
          updated_at = now;
        })
        s

  -- The active layout becomes `l`, which is saved.
  abbrev pub edit : Bool → ℕ → CustomLayout D → Studio D R → Studio D R
  unfolding save_layout
  edit fits now l s = record s {
    active_layout = l;
    storage = save_layout n json fits now l s.storage;
  }

  -- Only a layout that is no preset is saved.
  abbrev pub edit_own : Bool → ℕ → CustomLayout D → Studio D R → Studio D R
  unfolding edit
  edit_own fits now l s =
      if is_preset_layout l then record s { active_layout = l } else edit fits now l s

  unfoldable pub update_element : Bool → ℕ → String → ElementUpdates D → Studio D R → Studio D R
  unfolding edit_own update_one
  update_element fits now id u s =
      let prev = s.active_layout in
      edit_own fits now
        (record prev {
          elements = map (update_one n prev.grid_snap id u) prev.elements;
          updated_at = now;
        })
        s

  unfoldable pub add_element :
      Bool → ℕ → String → TouchElementType → D → D → Studio D R → Studio D R
  unfolding edit new_element
  add_element fits now id type x y s =
      let prev = s.active_layout in
      let t =
        edit fits now
          (record prev {
            is_preset = some false;
            elements = prev.elements ++ new_element n id type x y prev.grid_snap ∷ [];
            updated_at = now;
          })
          s in
      record t { selected_element_id = some id }

  unfoldable pub remove_element : Bool → ℕ → String → Studio D R → Studio D R
  unfolding edit
  remove_element fits now id s =
      let prev = s.active_layout in
      let t =
        edit fits now
          (record prev {
            is_preset = some false;
            elements = without_element n id prev.elements;
            updated_at = now;
          })
          s in
      elim t.selected_element_id [
        | none ↦ t
        | some selected ↦ if str_eq selected id then record t { selected_element_id = none } else t
      ]

  unfoldable pub set_grid_snap : Bool → ℕ → D → Studio D R → Studio D R
  unfolding edit_own
  set_grid_snap fits now snap s = edit_own fits now (record s.active_layout { grid_snap = snap }) s

  unfoldable pub delete_active_layout : Bool → Studio D R → Studio D R
  unfolding refresh_layouts delete_layout
  delete_active_layout fits s =
      if is_preset_layout s.active_layout
      then s
      else refresh_layouts
          (record s { storage = (delete_layout n json fits s.active_layout.id s.storage).0 })

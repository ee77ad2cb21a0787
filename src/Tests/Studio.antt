-- ===== src/Tests/Studio.antt =====
-- The layout studio, instantiated with whole numbers and with lists of layouts for their texts.
use text.Mathlib.Text.{◌==◌ as str_eq}
use lookauniversalremote.Prelude.{
  ℕ, ◌≡◌, refl, ◌*◌, ◌/◌, ltb, max, if◌then◌else◌, true, false, List, [], ◌∷◌, none, some,
}
use lookauniversalremote.Studio.Types.{TouchElementType, CustomLayout, Orientation, Reals}
use lookauniversalremote.Studio.Presets.{
  default_xbox_layout, builtin_presets, fps_claw_layout, fighting_arcade_layout,
}
use lookauniversalremote.Studio.Storage.{
  Json, LocalStorage, find, stamped, load_user_layouts, save_layout, delete_layout,
  get_active_layout_id,
}
use lookauniversalremote.Studio.Layouts.{
  Studio, refresh_layouts, update_element, add_element, remove_element,
}
use lookauniversalremote.Studio.Elements.{ElementUpdates}
use lookauniversalremote.Studio.Persistence.{find-storage, refresh-update_element, refresh-builtin}

abbrev naturals : Reals ℕ
naturals = record {
  whole = λ k. k;
  is_positive = λ k. ltb 0 k;
  round = λ k. k;
  div = λ j k. j / k;
  mul = λ j k. j * k;
  max_of = max;
}

abbrev plain_json : Json ℕ (List (CustomLayout ℕ))
plain_json = record {
  stringify = λ ls. ls;
  parse = λ ls. some ls;
  is_blank = λ ls. false;
  parse_stringify = λ ls. refl;
  nonempty = λ ls. refl;
}

abbrev mine : CustomLayout ℕ
mine = record {
  id = "custom-layout-1";
  name = "Mine";
  description = "";
  orientation = Orientation.portrait;
  elements = [];
  grid_snap = 16;
  is_preset = some false;
  created_at = 5;
  updated_at = 5;
}

abbrev stored : LocalStorage (List (CustomLayout ℕ))
stored = record {
  available = true;
  touch_layouts = some (mine ∷ []);
  active_layout_id = some "custom-layout-1";
}

find-storage_example :
    let before = find "custom-layout-1" (load_user_layouts naturals plain_json stored) in
    (find "custom-layout-1"
        (load_user_layouts naturals plain_json (save_layout naturals plain_json true 9 mine stored))
      ≡ (if str_eq "custom-layout-1" "custom-layout-1" then some (stamped 9 mine) else before))
    × (find "custom-layout-1" (
          load_user_layouts naturals plain_json
            (delete_layout naturals plain_json true "custom-layout-1" stored).0)
        ≡ (if str_eq "custom-layout-1" "custom-layout-1" then none else before))
find-storage_example =
    find-storage naturals plain_json "custom-layout-1" "custom-layout-1" 9 mine stored refl

abbrev studio : Studio ℕ (List (CustomLayout ℕ))
studio = record {
  storage = stored;
  all_layouts = mine ∷ [];
  active_layout = mine;
  selected_element_id = none;
}

abbrev moved : ElementUpdates ℕ
moved = record {
  id = none;
  type = none;
  label = some "Fire";
  x = some 33;
  y = none;
  width = none;
  height = none;
  color = none;
  mapping = none;
}

refresh-update_element_example :
    let t = update_element naturals plain_json true 9 "elem-1" moved studio in
    (refresh_layouts naturals plain_json t).active_layout
    ≡ record t.active_layout { is_preset = some false }
unfolding get_active_layout_id builtin_presets default_xbox_layout fps_claw_layout
    fighting_arcade_layout
refresh-update_element_example =
    refresh-update_element naturals plain_json 9 "elem-1" moved studio refl refl refl refl

abbrev built_in : Studio ℕ (List (CustomLayout ℕ))
built_in = record studio {
  storage = record stored { active_layout_id = some "preset-xbox-default" };
  active_layout = default_xbox_layout naturals;
}

refresh-builtin_example :
    ((refresh_layouts naturals plain_json (
        add_element naturals plain_json true 9 "elem-9" TouchElementType.stick 40 40
          built_in)).active_layout
      ≡ default_xbox_layout naturals)
    × ((refresh_layouts naturals plain_json
          (remove_element naturals plain_json true 9 "elem-9" built_in)).active_layout
        ≡ default_xbox_layout naturals)
unfolding get_active_layout_id builtin_presets default_xbox_layout
refresh-builtin_example =
    refresh-builtin naturals plain_json true 9 "elem-9" TouchElementType.stick 40 40
      (default_xbox_layout naturals) built_in refl refl

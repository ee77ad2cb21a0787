-- ===== src/Studio/Storage.antt =====
-- layoutStorage.ts of features/studio: layouts in the browser's storage.
use Prim.Native.String.{String}
use text.Mathlib.Text.{◌==◌ as str_eq}
use lookauniversalremote.Prelude.{
  ℕ, ◌≡◌, if◌then◌else◌, Bool, true, false, List, [], ◌∷◌, ◌++◌, Option, none, some,
}
use lookauniversalremote.Studio.Types.{CustomLayout, Reals}
use lookauniversalremote.Studio.Presets.{default_xbox_layout, builtin_presets}

-- JSON of the platform on lists of layouts, with texts of the type `R`: `none` is text that is no JSON
-- array. Layouts, of which every number is finite, come back from their text, which is not empty.
pub record Json (D R : Type 0) : Type 0 where
  pub stringify : List (CustomLayout D) → R
  pub parse : R → Option (List (CustomLayout D))
  pub is_blank : R → Bool
  pub parse_stringify : (ls : List (CustomLayout D)) → parse (stringify ls) ≡ some ls
  pub nonempty : (ls : List (CustomLayout D)) → is_blank (stringify ls) ≡ false

-- `localStorage`, whether there is one, with the texts under the two keys.
pub record LocalStorage (R : Type 0) : Type 0 where
  pub available : Bool
  pub touch_layouts : Option R
  pub active_layout_id : Option String

module _ {D : Type 0} where
  -- `find` by id, and the two ways to change a list.
  abbrev pub find : String → List (CustomLayout D) → Option (CustomLayout D)
  find id [] = none
  find id (l ∷ ls) = if str_eq l.id id then some l else find id ls

  -- The first layout with this id is replaced; without one the layout is added at the end.
  abbrev pub put : CustomLayout D → List (CustomLayout D) → List (CustomLayout D)
  put l [] = l ∷ []
  put l (m ∷ ms) = if str_eq m.id l.id then l ∷ ms else m ∷ put l ms

  abbrev pub without : String → List (CustomLayout D) → List (CustomLayout D)
  without id [] = []
  without id (l ∷ ls) = let rest = without id ls in if str_eq l.id id then rest else l ∷ rest

  -- What `saveLayout` stores for a layout.
  abbrev pub stamped : ℕ → CustomLayout D → CustomLayout D
  stamped now l = record l { is_preset = some false; updated_at = now }

module _ {D R : Type 0} (n : Reals D) (json : Json D R) where
  unfoldable pub load_user_layouts : LocalStorage R → List (CustomLayout D)
  load_user_layouts st =
      if st.available
      then elim st.touch_layouts [
        | none ↦ []
        | some raw ↦
            if json.is_blank raw
            then []
            else elim (json.parse raw) [ none ↦ [] | some layouts ↦ layouts ]
      ]
      else []

  unfoldable pub load_all_layouts : LocalStorage R → List (CustomLayout D)
  unfolding load_user_layouts builtin_presets
  load_all_layouts st = builtin_presets n ++ load_user_layouts st

  -- `fits` says that `setItem` does not throw.
  unfoldable pub save_layout : Bool → ℕ → CustomLayout D → LocalStorage R → LocalStorage R
  unfolding load_user_layouts
  save_layout fits now layout st =
      if st.available
      then (let user_layouts = put (stamped now layout) (load_user_layouts st) in
          if fits then record st { touch_layouts = some (json.stringify user_layouts) } else st)
      else st

  unfoldable pub get_active_layout_id : LocalStorage R → String
  unfolding default_xbox_layout
  get_active_layout_id st =
      if st.available
      then elim st.active_layout_id [
        | none ↦ (default_xbox_layout n).id
        | some id ↦ if str_eq id "" then (default_xbox_layout n).id else id
      ]
      else (default_xbox_layout n).id

  -- An id is short, so that it is taken to fit.
  unfoldable pub set_active_layout_id : String → LocalStorage R → LocalStorage R
  set_active_layout_id id st = if st.available then record st { active_layout_id = some id } else st

  unfoldable pub delete_layout : Bool → String → LocalStorage R → LocalStorage R × Bool
  unfolding load_user_layouts get_active_layout_id set_active_layout_id default_xbox_layout
  delete_layout fits id st =
      if st.available
      then (if fits
          then (let kept = record st {
            touch_layouts = some (json.stringify (without id (load_user_layouts st)));
          } in
              let kept' =
                (if str_eq (get_active_layout_id kept) id
                  then set_active_layout_id (default_xbox_layout n).id kept
                  else kept) in
              (kept', true))
          else (st, false))
      else (st, false)

  unfoldable pub get_active_layout : LocalStorage R → CustomLayout D
  unfolding get_active_layout_id load_all_layouts default_xbox_layout
  get_active_layout st = elim (find (get_active_layout_id st) (load_all_layouts st)) [
    | none ↦ default_xbox_layout n
    | some layout ↦ layout
  ]

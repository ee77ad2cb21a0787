-- ===== src/Studio/Persistence.antt =====
-- useCustomLayout.ts and layoutStorage.ts: what is stored, and what becomes of edits.
use Prim.Native.String.{String}
use text.Mathlib.Text.{◌==◌ as str_eq}
use text.Mathlib.TextEquality.{eq_iff}
use lookauniversalremote.Prelude.{
  ℕ, ◌≡◌, refl, ap, sym, ◌∙◌, inl, inr, if◌then◌else◌, Bool, true, false, List, [], ◌∷◌, ◌++◌, map,
  none, some, arith, Bool-cases,
}
use lookauniversalremote.Studio.Types.{TouchElementType, CustomLayout, Reals}
use lookauniversalremote.Studio.Presets.{default_xbox_layout, builtin_presets}
use lookauniversalremote.Studio.Storage.{
  Json, LocalStorage, find, put, without, stamped, load_user_layouts, load_all_layouts, save_layout,
  get_active_layout_id, set_active_layout_id, delete_layout, get_active_layout,
}
use lookauniversalremote.Studio.Layouts.{
  Studio, refresh_layouts, update_element, add_element, remove_element,
}
use lookauniversalremote.Studio.Elements.{
  ElementUpdates, is_preset_layout, update_one, without_element, new_element,
}

str_eq_refl : (s t : String) → s ≡ t → str_eq s t ≡ true
str_eq_refl s t h = (eq_iff s t).1 h

-- Equal texts answer alike.
str_eq_trans : (s t u : String) → str_eq s t ≡ true → str_eq s u ≡ str_eq t u
str_eq_trans s t u h = ap (λ v. str_eq v u) ((eq_iff s t).0 h)

-- Texts that are equal to a third are equal.
str_eq_join : (s t u : String) → str_eq s u ≡ true → str_eq t u ≡ true → str_eq s t ≡ true
str_eq_join s t u h k = (eq_iff s t).1 ((eq_iff s u).0 h ∙ sym ((eq_iff t u).0 k))

module _ {D : Type 0} where
  find-put :
      (id : String) (l : CustomLayout D) (ms : List (CustomLayout D))
      → find id (put l ms) ≡ (if str_eq l.id id then some l else find id ms)
  find-put id l [] = refl
  find-put id l (m ∷ ms) = elim (Bool-cases (str_eq m.id l.id)) [
    | inl same ↦ rw same (ground (arith, str_eq_trans m.id l.id id))
    | inr other ↦ rw (other, find-put id l ms) (ground (arith, str_eq_join m.id l.id id))
  ]

  find-without :
      (j id : String) (ms : List (CustomLayout D))
      → find j (without id ms) ≡ (if str_eq id j then none else find j ms)
  find-without j id [] = ground arith
  find-without j id (m ∷ ms) = elim (Bool-cases (str_eq m.id id)) [
    | inl same ↦ rw (same, find-without j id ms) (ground (arith, str_eq_trans m.id id j))
    | inr other ↦ rw (other, find-without j id ms) (ground (arith, str_eq_join m.id id j))
  ]

  find-append :
      (j : String) (ls ms : List (CustomLayout D))
      → find j (ls ++ ms) ≡ elim (find j ls) [ none ↦ find j ms | some l ↦ some l ]
  find-append j [] ms = refl
  find-append j (l ∷ ls) ms = elim (Bool-cases (str_eq l.id j)) [
    | inl same ↦ rw same refl
    | inr other ↦ rw other (find-append j ls ms)
  ]

module _ {D R : Type 0} (n : Reals D) (json : Json D R) where
  load-store :
      (ls : List (CustomLayout D)) (st : LocalStorage R)
      → st.available ≡ true
      → load_user_layouts n json (record st { touch_layouts = some (json.stringify ls) }) ≡ ls
  unfolding load_user_layouts
  load-store ls st here = rw (here, json.nonempty ls, json.parse_stringify ls) refl

  load-save_layout :
      (now : ℕ) (l : CustomLayout D) (st : LocalStorage R)
      → st.available ≡ true
      → load_user_layouts n json (save_layout n json true now l st)
        ≡ put (stamped now l) (load_user_layouts n json st)
  unfolding save_layout load_user_layouts
  load-save_layout now l st here =
      let stored = load-store (put (stamped now l) (load_user_layouts n json st)) st here in
      ground (arith, here, stored)

  load-delete_layout :
      (id : String) (st : LocalStorage R)
      → st.available ≡ true
      → load_user_layouts n json (delete_layout n json true id st).0
        ≡ without id (load_user_layouts n json st)
  unfolding delete_layout set_active_layout_id load_user_layouts
  load-delete_layout id st here =
      let stored = load-store (without id (load_user_layouts n json st)) st here in
      ground (arith, here, stored)

  -- With storage at hand and space in it, a saved layout is found under its id, as no preset and with
  -- the time of saving, a deleted one is not found, and every other id finds what it found before.
  pub find-storage :
      (j id : String) (now : ℕ) (l : CustomLayout D) (st : LocalStorage R)
      → st.available ≡ true
      → let before = find j (load_user_layouts n json st) in
        (find j (load_user_layouts n json (save_layout n json true now l st))
          ≡ (if str_eq l.id j then some (stamped now l) else before))
        × (find j (load_user_layouts n json (delete_layout n json true id st).0)
            ≡ (if str_eq id j then none else before))
  find-storage j id now l st here = (
    ap (find j) (load-save_layout now l st here)
        ∙ find-put j (stamped now l) (load_user_layouts n json st),
    ap (find j) (load-delete_layout id st here) ∙ find-without j id (load_user_layouts n json st),
  )

  -- Saving leaves the active id.
  id-save_layout :
      (fits : Bool) (now : ℕ) (l : CustomLayout D) (st : LocalStorage R)
      → get_active_layout_id n json (save_layout n json fits now l st)
        ≡ get_active_layout_id n json st
  unfolding get_active_layout_id save_layout
  id-save_layout fits now l st = ground arith

  -- The active layout is the one that its id finds.
  active-find :
      (id : String) (l : CustomLayout D) (st : LocalStorage R)
      → get_active_layout_id n json st ≡ id
      → find id (load_all_layouts n json st) ≡ some l
      → get_active_layout n json st ≡ l
  unfolding get_active_layout
  active-find id l st is found =
      ap (λ o. elim o [ none ↦ default_xbox_layout n | some m ↦ m ])
        (ap (λ j. find j (load_all_layouts n json st)) is ∙ found)

  -- It is the built-in one if there is one with its id, else the user's.
  active-builtin :
      (id : String) (p : CustomLayout D) (st : LocalStorage R)
      → get_active_layout_id n json st ≡ id
      → find id (builtin_presets n) ≡ some p
      → get_active_layout n json st ≡ p
  unfolding load_all_layouts
  active-builtin id p st is found = active-find id p st is (
      find-append id (builtin_presets n) (load_user_layouts n json st)
      ∙ ap (λ o. elim o [ none ↦ find id (load_user_layouts n json st) | some m ↦ some m ]) found)

  active-user :
      (id : String) (l : CustomLayout D) (st : LocalStorage R)
      → get_active_layout_id n json st ≡ id
      → find id (builtin_presets n) ≡ none
      → find id (load_user_layouts n json st) ≡ some l
      → get_active_layout n json st ≡ l
  unfolding load_all_layouts
  active-user id l st is own found = active-find id l st is (
      find-append id (builtin_presets n) (load_user_layouts n json st)
      ∙ ap (λ o. elim o [ none ↦ find id (load_user_layouts n json st) | some m ↦ some m ]) own
      ∙ found)

  -- An edit of the active layout that is saved, read back.
  active-edit :
      (now : ℕ) (l : CustomLayout D) (st : LocalStorage R)
      → st.available ≡ true
      → get_active_layout_id n json st ≡ l.id
      → find l.id (builtin_presets n) ≡ none
      → get_active_layout n json (save_layout n json true now l st) ≡ stamped now l
  active-edit now l st here is own =
      active-user l.id (stamped now l) (save_layout n json true now l st)
        (id-save_layout true now l st ∙ is) own
        (ap (find l.id) (load-save_layout now l st here)
          ∙ find-put l.id (stamped now l) (load_user_layouts n json st)
          ∙ ap (λ b. if b then some (stamped now l) else find l.id (load_user_layouts n json st))
              (str_eq_refl l.id l.id refl))

  -- With storage at hand and space in it, an update of an element of the active layout, which is no
  -- preset, is stored as the active one and does not have the id of a built-in preset, stays: when
  -- the layouts are read again, the active layout is the updated one, marked as no preset.
  pub refresh-update_element :
      (now : ℕ) (id : String) (u : ElementUpdates D) (s : Studio D R)
      → s.storage.available ≡ true
      → is_preset_layout s.active_layout ≡ false
      → get_active_layout_id n json s.storage ≡ s.active_layout.id
      → find s.active_layout.id (builtin_presets n) ≡ none
      → let t = update_element n json true now id u s in
        (refresh_layouts n json t).active_layout ≡ record t.active_layout { is_preset = some false }
  unfolding refresh_layouts update_element
  refresh-update_element now id u s here plain is own =
      let prev = s.active_layout in
      let edited = record prev {
        elements = map (update_one n prev.grid_snap id u) prev.elements;
        updated_at = now;
      } in
      rw plain (active-edit now edited s.storage here is own)

  -- The edits of an active layout that is built in are lost: whatever is added or removed, when the
  -- layouts are read again, the active layout is the built-in one as it was.
  pub refresh-builtin :
      (fits : Bool) (now : ℕ) (id : String) (type : TouchElementType) (x y : D) (p : CustomLayout D)
      (s : Studio D R)
      → get_active_layout_id n json s.storage ≡ s.active_layout.id
      → find s.active_layout.id (builtin_presets n) ≡ some p
      → ((refresh_layouts n json (add_element n json fits now id type x y s)).active_layout ≡ p)
        × ((refresh_layouts n json (remove_element n json fits now id s)).active_layout ≡ p)
  unfolding refresh_layouts add_element remove_element
  refresh-builtin fits now id type x y p s is found =
      let prev = s.active_layout in
      let added = record prev {
        is_preset = some false;
        elements = prev.elements ++ new_element n id type x y prev.grid_snap ∷ [];
        updated_at = now;
      } in
      let removed = record prev {
        is_preset = some false;
        elements = without_element n id prev.elements;
        updated_at = now;
      } in
      let kept : (l : CustomLayout D)
          → get_active_layout n json (save_layout n json fits now l s.storage) ≡ p =
        λ l.
          active-builtin prev.id p (save_layout n json fits now l s.storage)
            (id-save_layout fits now l s.storage ∙ is) found in
      (kept added, ground (arith, kept removed))

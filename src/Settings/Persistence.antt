-- ===== src/Settings/Persistence.antt =====
-- The settings over a reload of the page.
use lookauniversalremote.Prelude.{◌≡◌, refl, true, List, [], ◌∷◌, some}
use lookauniversalremote.Haptics.{HapticEngine, set_enabled}
use lookauniversalremote.Motion.{Floats}
use lookauniversalremote.Settings.{
  AppSettings, PartialSettings, merge_settings, SettingsJson, SettingsStorage, SettingsHook,
  sync_haptics, load_settings, use_settings, update_settings,
}

module _ {D R : Type 0} (n : Floats D) (json : SettingsJson D R) where
  abbrev pub update_all : List (PartialSettings D) → SettingsHook D R → SettingsHook D R
  update_all [] h = h
  update_all (p ∷ ps) h = update_all ps (update_settings json p h)

  -- The haptic engine follows the settings, and a page that is loaded from the storage has them.
  pub record IsKept (h : SettingsHook D R) : Type 0 where
    pub followed : h.haptics.enabled ≡ h.settings.haptics_enabled
    pub reloaded : load_settings n json true h.storage ≡ h.settings
    pub roomy : h.storage.has_room ≡ true

  load-stringify :
      (s : AppSettings D) (st : SettingsStorage R)
      → load_settings n json true (record st { settings = some (json.stringify s) }) ≡ s
  unfolding load_settings merge_settings
  load-stringify s st = rw (json.nonempty s, json.parse_stringify s) refl

  update-IsKept :
      (p : PartialSettings D) (h : SettingsHook D R) → IsKept h → IsKept (update_settings json p h)
  unfolding update_settings sync_haptics set_enabled
  update-IsKept p h kept = record {
    followed = refl;
    reloaded =
        rw kept.roomy
          (load-stringify (merge_settings h.settings p) (record h.storage { has_room = true }));
    roomy = rw kept.roomy refl;
  }

  update_all-IsKept :
      (ps : List (PartialSettings D)) (h : SettingsHook D R) → IsKept h → IsKept (update_all ps h)
  update_all-IsKept [] h kept = kept
  update_all-IsKept (p ∷ ps) h kept =
      update_all-IsKept ps (update_settings json p h) (update-IsKept p h kept)

  use_settings-IsKept :
      (st : SettingsStorage R) (haptics : HapticEngine)
      → st.has_room ≡ true
      → IsKept (use_settings n json st haptics)
  unfolding use_settings sync_haptics set_enabled
  use_settings-IsKept st haptics roomy = record { followed = refl; reloaded = refl; roomy = roomy }

  -- Where the storage takes every write, whatever it has at first, after any updates of the settings
  -- the haptic engine is on exactly if they say so, and a page that is loaded again has the same
  -- settings, every field of them.
  pub update_all-use_settings :
      (st : SettingsStorage R) (haptics : HapticEngine) (ps : List (PartialSettings D))
      → st.has_room ≡ true
      → IsKept (update_all ps (use_settings n json st haptics))
  update_all-use_settings st haptics ps roomy =
      update_all-IsKept ps (use_settings n json st haptics) (use_settings-IsKept st haptics roomy)

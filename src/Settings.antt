-- ===== src/Settings.antt =====
-- apps/web-client/src/features/settings/useSettings.ts: the settings, merged from the defaults and the
-- browser's storage, and the haptic engine that follows them.
pub mod Persistence
use lookauniversalremote.Prelude.{
  ℕ, ◌≡◌, ◌==◌, if◌then◌else◌, Bool, true, false, pos, List, [], Option, none, some,
}
use lookauniversalremote.Protocol.Types.{Text}
use lookauniversalremote.Trackpad.State.{or_else}
use lookauniversalremote.Haptics.{HapticEngine, set_enabled}
use lookauniversalremote.Motion.{Floats}
use lookauniversalremote.Motion.Filters.{SmoothingPreset, light}
use lookauniversalremote.Motion.Controller.{GyroAimMode, always_on}

pub data GyroOutputMode : Type 0 where
  mouse right_stick : GyroOutputMode

pub record AppSettings (D : Type 0) : Type 0 where
  pub haptics_enabled : Bool
  pub wake_lock_enabled : Bool
  pub show_telemetry_details : Bool
  pub custom_host : Text
  pub left_stick_deadzone : D
  pub right_stick_deadzone : D
  pub stick_sensitivity : D
  pub invert_left_stick_y : Bool
  pub invert_right_stick_y : Bool
  pub floating_joysticks : Bool
  pub gamepad_sample_rate : D
  pub gyro_aim_mode : GyroAimMode
  pub gyro_sensitivity_x : D
  pub gyro_sensitivity_y : D
  pub gyro_invert_x : Bool
  pub gyro_invert_y : Bool
  pub gyro_deadzone : D
  pub gyro_smoothing : SmoothingPreset
  pub gyro_roll_mix : D
  pub gyro_sample_rate : D
  pub gyro_output_mode : GyroOutputMode
  pub trackpad_sensitivity : D
  pub trackpad_acceleration : D
  pub trackpad_natural_scroll : Bool
  pub trackpad_scroll_sensitivity : D
  pub trackpad_tap_to_click : Bool
  pub trackpad_double_tap_drag : Bool
  pub auto_switch_enabled : Bool
  pub manual_override_lock : Bool
  pub smart_context_toast_enabled : Bool

-- `Partial<AppSettings>`, and what the stored text gives.
pub record PartialSettings (D : Type 0) : Type 0 where
  pub haptics_enabled : Option Bool
  pub wake_lock_enabled : Option Bool
  pub show_telemetry_details : Option Bool
  pub custom_host : Option Text
  pub left_stick_deadzone : Option D
  pub right_stick_deadzone : Option D
  pub stick_sensitivity : Option D
  pub invert_left_stick_y : Option Bool
  pub invert_right_stick_y : Option Bool
  pub floating_joysticks : Option Bool
  pub gamepad_sample_rate : Option D
  pub gyro_aim_mode : Option GyroAimMode
  pub gyro_sensitivity_x : Option D
  pub gyro_sensitivity_y : Option D
  pub gyro_invert_x : Option Bool
  pub gyro_invert_y : Option Bool
  pub gyro_deadzone : Option D
  pub gyro_smoothing : Option SmoothingPreset
  pub gyro_roll_mix : Option D
  pub gyro_sample_rate : Option D
  pub gyro_output_mode : Option GyroOutputMode
  pub trackpad_sensitivity : Option D
  pub trackpad_acceleration : Option D
  pub trackpad_natural_scroll : Option Bool
  pub trackpad_scroll_sensitivity : Option D
  pub trackpad_tap_to_click : Option Bool
  pub trackpad_double_tap_drag : Option Bool
  pub auto_switch_enabled : Option Bool
  pub manual_override_lock : Option Bool
  pub smart_context_toast_enabled : Option Bool

module _ {D : Type 0} where
  -- `{ ...s, ...p }`.
  unfoldable pub merge_settings : AppSettings D → PartialSettings D → AppSettings D
  merge_settings s p = record {
    haptics_enabled = or_else p.haptics_enabled s.haptics_enabled;
    wake_lock_enabled = or_else p.wake_lock_enabled s.wake_lock_enabled;
    show_telemetry_details = or_else p.show_telemetry_details s.show_telemetry_details;
    custom_host = or_else p.custom_host s.custom_host;
    left_stick_deadzone = or_else p.left_stick_deadzone s.left_stick_deadzone;
    right_stick_deadzone = or_else p.right_stick_deadzone s.right_stick_deadzone;
    stick_sensitivity = or_else p.stick_sensitivity s.stick_sensitivity;
    invert_left_stick_y = or_else p.invert_left_stick_y s.invert_left_stick_y;
    invert_right_stick_y = or_else p.invert_right_stick_y s.invert_right_stick_y;
    floating_joysticks = or_else p.floating_joysticks s.floating_joysticks;
    gamepad_sample_rate = or_else p.gamepad_sample_rate s.gamepad_sample_rate;
    gyro_aim_mode = or_else p.gyro_aim_mode s.gyro_aim_mode;
    gyro_sensitivity_x = or_else p.gyro_sensitivity_x s.gyro_sensitivity_x;
    gyro_sensitivity_y = or_else p.gyro_sensitivity_y s.gyro_sensitivity_y;
    gyro_invert_x = or_else p.gyro_invert_x s.gyro_invert_x;
    gyro_invert_y = or_else p.gyro_invert_y s.gyro_invert_y;
    gyro_deadzone = or_else p.gyro_deadzone s.gyro_deadzone;
    gyro_smoothing = or_else p.gyro_smoothing s.gyro_smoothing;
    gyro_roll_mix = or_else p.gyro_roll_mix s.gyro_roll_mix;
    gyro_sample_rate = or_else p.gyro_sample_rate s.gyro_sample_rate;
    gyro_output_mode = or_else p.gyro_output_mode s.gyro_output_mode;
    trackpad_sensitivity = or_else p.trackpad_sensitivity s.trackpad_sensitivity;
    trackpad_acceleration = or_else p.trackpad_acceleration s.trackpad_acceleration;
    trackpad_natural_scroll = or_else p.trackpad_natural_scroll s.trackpad_natural_scroll;
    trackpad_scroll_sensitivity =
        or_else p.trackpad_scroll_sensitivity s.trackpad_scroll_sensitivity;
    trackpad_tap_to_click = or_else p.trackpad_tap_to_click s.trackpad_tap_to_click;
    trackpad_double_tap_drag = or_else p.trackpad_double_tap_drag s.trackpad_double_tap_drag;
    auto_switch_enabled = or_else p.auto_switch_enabled s.auto_switch_enabled;
    manual_override_lock = or_else p.manual_override_lock s.manual_override_lock;
    smart_context_toast_enabled =
        or_else p.smart_context_toast_enabled s.smart_context_toast_enabled;
  }

  -- Settings as a part that has every field.
  abbrev pub every_field : AppSettings D → PartialSettings D
  every_field s = record {
    haptics_enabled = some s.haptics_enabled;
    wake_lock_enabled = some s.wake_lock_enabled;
    show_telemetry_details = some s.show_telemetry_details;
    custom_host = some s.custom_host;
    left_stick_deadzone = some s.left_stick_deadzone;
    right_stick_deadzone = some s.right_stick_deadzone;
    stick_sensitivity = some s.stick_sensitivity;
    invert_left_stick_y = some s.invert_left_stick_y;
    invert_right_stick_y = some s.invert_right_stick_y;
    floating_joysticks = some s.floating_joysticks;
    gamepad_sample_rate = some s.gamepad_sample_rate;
    gyro_aim_mode = some s.gyro_aim_mode;
    gyro_sensitivity_x = some s.gyro_sensitivity_x;
    gyro_sensitivity_y = some s.gyro_sensitivity_y;
    gyro_invert_x = some s.gyro_invert_x;
    gyro_invert_y = some s.gyro_invert_y;
    gyro_deadzone = some s.gyro_deadzone;
    gyro_smoothing = some s.gyro_smoothing;
    gyro_roll_mix = some s.gyro_roll_mix;
    gyro_sample_rate = some s.gyro_sample_rate;
    gyro_output_mode = some s.gyro_output_mode;
    trackpad_sensitivity = some s.trackpad_sensitivity;
    trackpad_acceleration = some s.trackpad_acceleration;
    trackpad_natural_scroll = some s.trackpad_natural_scroll;
    trackpad_scroll_sensitivity = some s.trackpad_scroll_sensitivity;
    trackpad_tap_to_click = some s.trackpad_tap_to_click;
    trackpad_double_tap_drag = some s.trackpad_double_tap_drag;
    auto_switch_enabled = some s.auto_switch_enabled;
    manual_override_lock = some s.manual_override_lock;
    smart_context_toast_enabled = some s.smart_context_toast_enabled;
  }

  abbrev pub default_settings : Floats D → AppSettings D
  default_settings n = record {
    haptics_enabled = true;
    wake_lock_enabled = true;
    show_telemetry_details = false;
    custom_host = [];
    left_stick_deadzone = n.decimal (pos 15) 2;
    right_stick_deadzone = n.decimal (pos 15) 2;
    stick_sensitivity = n.decimal (pos 1) 0;
    invert_left_stick_y = false;
    invert_right_stick_y = false;
    floating_joysticks = false;
    gamepad_sample_rate = n.decimal (pos 120) 0;
    gyro_aim_mode = always_on;
    gyro_sensitivity_x = n.decimal (pos 1) 0;
    gyro_sensitivity_y = n.decimal (pos 1) 0;
    gyro_invert_x = false;
    gyro_invert_y = false;
    gyro_deadzone = n.decimal (pos 2) 2;
    gyro_smoothing = light;
    gyro_roll_mix = n.decimal (pos 25) 2;
    gyro_sample_rate = n.decimal (pos 120) 0;
    gyro_output_mode = mouse;
    trackpad_sensitivity = n.decimal (pos 1) 0;
    trackpad_acceleration = n.decimal (pos 8) 1;
    trackpad_natural_scroll = true;
    trackpad_scroll_sensitivity = n.decimal (pos 1) 0;
    trackpad_tap_to_click = true;
    trackpad_double_tap_drag = true;
    auto_switch_enabled = true;
    manual_override_lock = false;
    smart_context_toast_enabled = true;
  }

-- JSON of the platform on settings, with texts of the type `R`: `parse` gives the fields of the value,
-- or `none` where it throws. Settings, of which every number is finite, come back from their text,
-- which is not empty.
pub record SettingsJson (D R : Type 0) : Type 0 where
  pub stringify : AppSettings D → R
  pub parse : R → Option (PartialSettings D)
  pub is_blank : R → Bool
  pub parse_stringify : (s : AppSettings D) → parse (stringify s) ≡ some (every_field s)
  pub nonempty : (s : AppSettings D) → is_blank (stringify s) ≡ false

-- `localStorage`: whether `setItem` returns, and the text under the key.
pub record SettingsStorage (R : Type 0) : Type 0 where
  pub has_room : Bool
  pub settings : Option R

-- The hook's state, with the storage and the haptic engine.
pub record SettingsHook (D R : Type 0) : Type 0 where
  pub settings : AppSettings D
  pub storage : SettingsStorage R
  pub haptics : HapticEngine

module _ {D R : Type 0} where
  -- The effect, which runs after each change of `hapticsEnabled`; run again it changes nothing.
  unfoldable pub sync_haptics : SettingsHook D R → SettingsHook D R
  unfolding set_enabled
  sync_haptics h = record h { haptics = set_enabled h.settings.haptics_enabled h.haptics }

module _ {D R : Type 0} (n : Floats D) (json : SettingsJson D R) where
  -- The initial state; `has_window` is `typeof window !== 'undefined'`.
  unfoldable pub load_settings : Bool → SettingsStorage R → AppSettings D
  unfolding merge_settings
  load_settings has_window st =
      if has_window
      then elim st.settings [
        | none ↦ default_settings n
        | some stored ↦
            if json.is_blank stored then default_settings n else elim (json.parse stored) [
              | none ↦ default_settings n
              | some p ↦ merge_settings (default_settings n) p
            ]
      ]
      else default_settings n

  -- The first rendering of the hook in a page, with its effect.
  unfoldable pub use_settings : SettingsStorage R → HapticEngine → SettingsHook D R
  unfolding load_settings sync_haptics
  use_settings st haptics =
      sync_haptics (record { settings = load_settings true st; storage = st; haptics = haptics })

module _ {D R : Type 0} (json : SettingsJson D R) where
  unfoldable pub update_settings : PartialSettings D → SettingsHook D R → SettingsHook D R
  unfolding merge_settings sync_haptics
  update_settings p h =
      let updated = merge_settings h.settings p in
      sync_haptics (record h {
        settings = updated;
        storage =
            if h.storage.has_room
            then record h.storage { settings = some (json.stringify updated) }
            else h.storage;
      })

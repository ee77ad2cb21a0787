-- ===== src/Tests/Settings.antt =====
-- The settings, instantiated with integers for floats.
use lookauniversalremote.Prelude.{refl, true, false, ℤ, pos, List, [], ◌∷◌, Option, none, some}
use lookauniversalremote.Haptics.{HapticEngine}
use lookauniversalremote.Settings.{
  AppSettings, PartialSettings, every_field, SettingsJson, SettingsStorage, use_settings,
}
use lookauniversalremote.Settings.Persistence.{IsKept, update_all, update_all-use_settings}
use lookauniversalremote.Tests.Motion.{integers}

-- Texts that are the settings themselves, with an empty one.
abbrev plain_json : SettingsJson ℤ (Option (AppSettings ℤ))
plain_json = record {
  stringify = some;
  parse = λ t. elim t [ none ↦ none | some s ↦ some (every_field s) ];
  is_blank = λ t. elim t [ none ↦ true | some s ↦ false ];
  parse_stringify = λ s. refl;
  nonempty = λ s. refl;
}

abbrev no_change : PartialSettings ℤ
no_change = record {
  haptics_enabled = none;
  wake_lock_enabled = none;
  show_telemetry_details = none;
  custom_host = none;
  left_stick_deadzone = none;
  right_stick_deadzone = none;
  stick_sensitivity = none;
  invert_left_stick_y = none;
  invert_right_stick_y = none;
  floating_joysticks = none;
  gamepad_sample_rate = none;
  gyro_aim_mode = none;
  gyro_sensitivity_x = none;
  gyro_sensitivity_y = none;
  gyro_invert_x = none;
  gyro_invert_y = none;
  gyro_deadzone = none;
  gyro_smoothing = none;
  gyro_roll_mix = none;
  gyro_sample_rate = none;
  gyro_output_mode = none;
  trackpad_sensitivity = none;
  trackpad_acceleration = none;
  trackpad_natural_scroll = none;
  trackpad_scroll_sensitivity = none;
  trackpad_tap_to_click = none;
  trackpad_double_tap_drag = none;
  auto_switch_enabled = none;
  manual_override_lock = none;
  smart_context_toast_enabled = none;
}

abbrev changes : List (PartialSettings ℤ)
changes =
    record no_change { haptics_enabled = some false; stick_sensitivity = some (pos 2) }
    ∷ record no_change { manual_override_lock = some true }
    ∷ []

abbrev engine : HapticEngine
engine = record { enabled = true; supported = true; vibrations = [] }

abbrev empty_storage : SettingsStorage (Option (AppSettings ℤ))
empty_storage = record { has_room = true; settings = none }

update_all-use_settings_example :
    IsKept integers plain_json (
      update_all integers plain_json changes
        (use_settings integers plain_json empty_storage engine))
update_all-use_settings_example =
    update_all-use_settings integers plain_json empty_storage engine changes refl

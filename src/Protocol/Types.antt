-- ===== src/Protocol/Types.antt =====
-- types.ts: packets and payloads. A `number` field is an integer (the protocol sends no fraction);
-- a text is the list of its UTF-16 code units.
use lookauniversalremote.Prelude.{ℕ, ℤ, List, Option}

abbrev pub Text : Type 0
Text = List ℕ

pub record Header : Type 0 where
  pub version : ℕ
  pub type : ℕ
  pub flags : ℤ
  pub sequence : ℤ

pub record MotionPayload : Type 0 where
  pub gyro_yaw : ℤ
  pub gyro_pitch : ℤ
  pub gyro_roll : ℤ
  pub accel_x : ℤ
  pub accel_y : ℤ
  pub accel_z : ℤ
  pub timestamp_us : ℤ

pub record GamepadFullPayload : Type 0 where
  pub buttons : ℤ
  pub stick_lx : ℤ
  pub stick_ly : ℤ
  pub stick_rx : ℤ
  pub stick_ry : ℤ
  pub trigger_l : ℤ
  pub trigger_r : ℤ
  pub player_index : Option ℤ
  pub reserved : Option ℤ

pub record TouchpadPayload : Type 0 where
  pub dx : ℤ
  pub dy : ℤ
  pub scroll_v : ℤ
  pub scroll_h : ℤ
  pub buttons_mask : ℤ

pub record KeyboardPayload : Type 0 where
  pub key_code : ℤ
  pub state : ℤ
  pub modifiers : ℤ

pub record MediaPayload : Type 0 where
  pub media_action : ℤ
  pub reserved : Option ℤ

pub record ModeSwitchPayload : Type 0 where
  pub target_mode : ℤ
  pub flags : ℤ

pub record HeartbeatPayload : Type 0 where
  pub client_epoch_ms : ℤ
  pub echo_token : ℤ

pub record HapticEventPayload : Type 0 where
  pub motor_index : ℤ
  pub intensity : ℤ
  pub duration_ms : ℤ

pub record SlotAssignmentPayload : Type 0 where
  pub player_index : ℤ
  pub player_color_rgb565 : ℤ
  pub battery_level : ℤ
  pub host_name : Text

pub record TvCommandPayload : Type 0 where
  pub command_code : ℤ
  pub target_device : ℤ
  pub flags : Option ℤ

pub record TvTextInputPayload : Type 0 where
  pub text : Text

-- The union `MessagePayload`; its tag is the `type` field of the source.
pub data MessagePayload : Type 0 where
  motion : MotionPayload → MessagePayload
  gamepad_full : GamepadFullPayload → MessagePayload
  touchpad : TouchpadPayload → MessagePayload
  keyboard : KeyboardPayload → MessagePayload
  media : MediaPayload → MessagePayload
  mode_switch : ModeSwitchPayload → MessagePayload
  heartbeat : HeartbeatPayload → MessagePayload
  haptic : HapticEventPayload → MessagePayload
  slot_assignment : SlotAssignmentPayload → MessagePayload
  tv_command : TvCommandPayload → MessagePayload
  tv_text_input : TvTextInputPayload → MessagePayload

pub record Packet : Type 0 where
  pub header : Header
  pub payload : MessagePayload

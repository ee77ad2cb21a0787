-- ===== src/Protocol/Constants.antt =====
-- constants.ts: the identifiers, sizes and masks of protocol version 1.
use lookauniversalremote.Prelude.{ℕ}

abbrev pub protocol_version : ℕ
protocol_version = 0x01

abbrev pub header_size : ℕ
header_size = 5

abbrev pub max_packet_size : ℕ
max_packet_size = 48

-- `MessageType`. The source also names ids with no codec (GAMEPAD_DELTA, ACK).
pub data MessageType : Type 0 where
  motion gamepad_full gamepad_delta touchpad keyboard media mode_switch heartbeat : MessageType
  ack haptic_event slot_assignment tv_command tv_text_input : MessageType

abbrev pub type_code : MessageType → ℕ
type_code MessageType.motion = 0x01
type_code MessageType.gamepad_full = 0x02
type_code MessageType.gamepad_delta = 0x03
type_code MessageType.touchpad = 0x04
type_code MessageType.keyboard = 0x05
type_code MessageType.media = 0x06
type_code MessageType.mode_switch = 0x07
type_code MessageType.heartbeat = 0x08
type_code MessageType.ack = 0x09
type_code MessageType.haptic_event = 0x0a
type_code MessageType.slot_assignment = 0x0b
type_code MessageType.tv_command = 0x0c
type_code MessageType.tv_text_input = 0x0d

-- `MessageSize[..].TOTAL`, the whole frame; the ids with no codec have no entry, here 0.
abbrev pub total_size : MessageType → ℕ
total_size MessageType.motion = 21
total_size MessageType.gamepad_full = 19
total_size MessageType.gamepad_delta = 0
total_size MessageType.touchpad = 12
total_size MessageType.keyboard = 9
total_size MessageType.media = 7
total_size MessageType.mode_switch = 7
total_size MessageType.heartbeat = 13
total_size MessageType.ack = 0
total_size MessageType.haptic_event = 9
total_size MessageType.slot_assignment = 25
total_size MessageType.tv_command = 9
total_size MessageType.tv_text_input = 37

-- `HeaderFlags.EMERGENCY_RESET`.
abbrev pub emergency_reset : ℕ
emergency_reset = 0x02

-- `TargetMode`.
pub data TargetMode : Type 0 where
  gamepad trackpad keyboard media_remote tv_remote air_mouse : TargetMode

abbrev pub mode_code : TargetMode → ℕ
mode_code TargetMode.gamepad = 0
mode_code TargetMode.trackpad = 1
mode_code TargetMode.keyboard = 2
mode_code TargetMode.media_remote = 3
mode_code TargetMode.tv_remote = 4
mode_code TargetMode.air_mouse = 5

-- `ModeSwitchFlags`.
abbrev pub is_manual_override : ℕ
is_manual_override = 0x01

abbrev pub is_enforced_by_host : ℕ
is_enforced_by_host = 0x02

-- `TargetDeviceType.GENERIC_TV`.
abbrev pub generic_tv : ℕ
generic_tv = 0

-- `HapticMotor`.
pub data HapticMotor : Type 0 where
  left right both : HapticMotor

abbrev pub motor_code : HapticMotor → ℕ
motor_code HapticMotor.left = 0
motor_code HapticMotor.right = 1
motor_code HapticMotor.both = 2

-- ===== src/Gamepad/State.antt =====
-- useGamepadState.ts: the record behind the hook. The masks and the button word are below 2^31, so
-- the bit operations of the source, which are on signed 32-bit integers, give the same numbers.
use lookauniversalremote.Prelude.{
  ℕ, ◌-◌, ℤ, pos, min_ℤ, max_ℤ, bit_and, bit_or, Bool, if◌then◌else◌, none, some,
}
use lookauniversalremote.Prelude.Ratio.{Ratio, round}
use lookauniversalremote.Protocol.Types.{GamepadFullPayload}

-- `GamepadButtonMask`.
pub data Button : Type 0 where
  dpad_up dpad_down dpad_left dpad_right south east west north l1 r1 l3 r3 start select guide :
      Button
  reserved_button : Button

-- The bit number that a mask shifts 1 by.
abbrev pub button_bit : Button → ℕ
button_bit dpad_up = 0
button_bit dpad_down = 1
button_bit dpad_left = 2
button_bit dpad_right = 3
button_bit south = 4
button_bit east = 5
button_bit west = 6
button_bit north = 7
button_bit l1 = 8
button_bit r1 = 9
button_bit l3 = 10
button_bit r3 = 11
button_bit start = 12
button_bit select = 13
button_bit guide = 14
button_bit reserved_button = 15

abbrev pub btn_l1 : ℕ
btn_l1 = 0x0100

abbrev pub btn_r1 : ℕ
btn_r1 = 0x0200

-- DPAD_UP | DPAD_DOWN | DPAD_LEFT | DPAD_RIGHT
abbrev pub dpad_all_mask : ℕ
dpad_all_mask = bit_or (bit_or (bit_or 0x1 0x2) 0x4) 0x8

pub record GamepadState : Type 0 where
  pub buttons : ℕ
  pub stick_lx : ℤ
  pub stick_ly : ℤ
  pub stick_rx : ℤ
  pub stick_ry : ℤ
  pub trigger_l : ℤ
  pub trigger_r : ℤ
  pub reserved : ℤ

pub data Side : Type 0 where
  left right : Side

unfoldable pub initial : GamepadState
initial = record {
  buttons = 0;
  stick_lx = pos 0;
  stick_ly = pos 0;
  stick_rx = pos 0;
  stick_ry = pos 0;
  trigger_l = pos 0;
  trigger_r = pos 0;
  reserved = pos 0;
}

-- `word & ~mask`; `~mask` as an unsigned word is 0xffffffff - mask.
unfoldable pub clear_bits : ℕ → ℕ → ℕ
clear_bits word mask = bit_and word (0xffffffff - mask)

unfoldable pub set_button : ℕ → Bool → GamepadState → GamepadState
set_button mask pressed s =
    if pressed
    then record s { buttons = bit_or s.buttons mask }
    else record s { buttons = clear_bits s.buttons mask }

unfoldable pub set_dpad : ℕ → GamepadState → GamepadState
set_dpad mask s = record s {
  buttons = bit_or (clear_bits s.buttons dpad_all_mask) (bit_and mask dpad_all_mask);
}

unfoldable pub set_left_stick : ℤ → ℤ → GamepadState → GamepadState
set_left_stick x y s = record s { stick_lx = x; stick_ly = y }

unfoldable pub set_right_stick : ℤ → ℤ → GamepadState → GamepadState
set_right_stick x y s = record s { stick_rx = x; stick_ry = y }

-- `Math.max(0, Math.min(255, Math.round(value)))`
unfoldable pub clamp_trigger : Ratio → ℤ
unfolding round max_ℤ min_ℤ
clamp_trigger value = max_ℤ (pos 0) (min_ℤ (pos 255) (round value))

unfoldable pub set_trigger : Side → Ratio → GamepadState → GamepadState
unfolding clamp_trigger
set_trigger left value s = record s { trigger_l = clamp_trigger value }
set_trigger right value s = record s { trigger_r = clamp_trigger value }

bumper_mask : Side → ℕ
bumper_mask left = btn_l1
bumper_mask right = btn_r1

unfoldable pub set_bumper : Side → Bool → GamepadState → GamepadState
unfolding bumper_mask
set_bumper side pressed s =
    let mask = bumper_mask side in
    if pressed
    then record s { buttons = bit_or s.buttons mask }
    else record s { buttons = clear_bits s.buttons mask }

unfoldable pub reset_all : GamepadState → GamepadState
reset_all s = record s {
  buttons = 0;
  stick_lx = pos 0;
  stick_ly = pos 0;
  stick_rx = pos 0;
  stick_ry = pos 0;
  trigger_l = pos 0;
  trigger_r = pos 0;
  reserved = pos 0;
}

-- A fresh object, with no `playerIndex`.
unfoldable pub get_snapshot : GamepadState → GamepadFullPayload
get_snapshot s = record {
  buttons = pos s.buttons;
  stick_lx = s.stick_lx;
  stick_ly = s.stick_ly;
  stick_rx = s.stick_rx;
  stick_ry = s.stick_ry;
  trigger_l = s.trigger_l;
  trigger_r = s.trigger_r;
  player_index = none;
  reserved = some s.reserved;
}

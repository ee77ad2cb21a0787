-- ===== src/Protocol/Decoder.antt =====
-- decoder.ts: `decodePacket`. One function for each case of its `switch`.
pub mod Text
pub mod Verdict
pub mod RoundTrip
pub mod Range
use lookauniversalremote.Prelude.{
  ℕ, zero, suc, min, ◌==◌, ltb, if◌then◌else◌, Bool, not, ℤ, pos, List, [], ◌∷◌, Option, none, some,
  length, take,
}
use lookauniversalremote.Protocol.Constants.{
  MessageType, type_code, total_size, protocol_version, header_size,
}
use lookauniversalremote.Protocol.Types.{
  Header, MessagePayload, motion, gamepad_full, touchpad, keyboard, media, mode_switch, heartbeat,
  haptic, slot_assignment, tv_command, tv_text_input, Packet,
}
use lookauniversalremote.Protocol.View.{DataView, get_uint8, sub_array, TextCodec}
use lookauniversalremote.Protocol.Reader.{
  Result, ok, throw, ◌>>=◌, ◌>>◌, too_short, bad_version, bad_size, unknown_type, read, u8, i8, u16,
  i16, u32, Input, to_data_view,
}

-- The check at the head of each case.
abbrev expect_size : MessageType → DataView → Result (Unit {0})
expect_size type view =
    if view.byte_length == total_size type
    then ok tt
    else throw (bad_size (total_size type) view.byte_length)

decode_motion : DataView → Result MessagePayload
unfolding i16 u32
decode_motion view = do
  expect_size MessageType.motion view
  gyro_yaw ← i16 view 5
  gyro_pitch ← i16 view 7
  gyro_roll ← i16 view 9
  accel_x ← i16 view 11
  accel_y ← i16 view 13
  accel_z ← i16 view 15
  timestamp_us ← u32 view 17
  ok (
      motion (record {
        gyro_yaw = gyro_yaw;
        gyro_pitch = gyro_pitch;
        gyro_roll = gyro_roll;
        accel_x = accel_x;
        accel_y = accel_y;
        accel_z = accel_z;
        timestamp_us = timestamp_us;
      }))

decode_gamepad_full : DataView → Result MessagePayload
unfolding u16 i16 u8
decode_gamepad_full view = do
  expect_size MessageType.gamepad_full view
  buttons ← u16 view 5
  stick_lx ← i16 view 7
  stick_ly ← i16 view 9
  stick_rx ← i16 view 11
  stick_ry ← i16 view 13
  trigger_l ← u8 view 15
  trigger_r ← u8 view 16
  player_index ← u8 view 17
  reserved ← u8 view 18
  ok (
      gamepad_full (record {
        buttons = buttons;
        stick_lx = stick_lx;
        stick_ly = stick_ly;
        stick_rx = stick_rx;
        stick_ry = stick_ry;
        trigger_l = trigger_l;
        trigger_r = trigger_r;
        player_index = some player_index;
        reserved = some reserved;
      }))

decode_touchpad : DataView → Result MessagePayload
unfolding i16 i8 u8
decode_touchpad view = do
  expect_size MessageType.touchpad view
  dx ← i16 view 5
  dy ← i16 view 7
  scroll_v ← i8 view 9
  scroll_h ← i8 view 10
  buttons_mask ← u8 view 11
  ok (
      touchpad (record {
        dx = dx;
        dy = dy;
        scroll_v = scroll_v;
        scroll_h = scroll_h;
        buttons_mask = buttons_mask;
      }))

decode_keyboard : DataView → Result MessagePayload
unfolding u16 u8
decode_keyboard view = do
  expect_size MessageType.keyboard view
  key_code ← u16 view 5
  state ← u8 view 7
  modifiers ← u8 view 8
  ok (keyboard (record { key_code = key_code; state = state; modifiers = modifiers }))

decode_media : DataView → Result MessagePayload
unfolding u8
decode_media view = do
  expect_size MessageType.media view
  media_action ← u8 view 5
  reserved ← u8 view 6
  ok (media (record { media_action = media_action; reserved = some reserved }))

decode_mode_switch : DataView → Result MessagePayload
unfolding u8
decode_mode_switch view = do
  expect_size MessageType.mode_switch view
  target_mode ← u8 view 5
  flags ← u8 view 6
  ok (mode_switch (record { target_mode = target_mode; flags = flags }))

decode_heartbeat : DataView → Result MessagePayload
unfolding u32
decode_heartbeat view = do
  expect_size MessageType.heartbeat view
  client_epoch_ms ← u32 view 5
  echo_token ← u32 view 9
  ok (heartbeat (record { client_epoch_ms = client_epoch_ms; echo_token = echo_token }))

decode_haptic_event : DataView → Result MessagePayload
unfolding u8 u16
decode_haptic_event view = do
  expect_size MessageType.haptic_event view
  motor_index ← u8 view 5
  intensity ← u8 view 6
  duration_ms ← u16 view 7
  ok (
      haptic
        (record { motor_index = motor_index; intensity = intensity; duration_ms = duration_ms }))

decode_tv_command : DataView → Result MessagePayload
unfolding u16 u8
decode_tv_command view = do
  expect_size MessageType.tv_command view
  command_code ← u16 view 5
  target_device ← u8 view 7
  flags ← u8 view 8
  ok (
      tv_command
        (record { command_code = command_code; target_device = target_device; flags = some flags }))

-- `rawBytes.subarray(0, nullIdx)`: the bytes before the first 0, all of them if there is none.
pub until_null : List ℕ → List ℕ
until_null [] = []
until_null (b ∷ bs) = if b == 0 then [] else b ∷ until_null bs

decode_header : DataView → Result Header
unfolding u8 u16 get_uint8
decode_header view =
    if ltb view.byte_length header_size then throw (too_short view.byte_length) else do
      version ← read (get_uint8 0 view)
      if version == protocol_version
          then (do
            type ← read (get_uint8 1 view)
            flags ← u8 view 2
            sequence ← u16 view 3
            ok (record { version = version; type = type; flags = flags; sequence = sequence }))
          else throw (bad_version version)

module _ (codec : TextCodec) where
  decode_slot_assignment : DataView → Result MessagePayload
  unfolding u8 u16 until_null sub_array
  decode_slot_assignment view = do
    expect_size MessageType.slot_assignment view
    let raw_bytes = sub_array 9 16 view
    let host_name = codec.decode (until_null raw_bytes)
    player_index ← u8 view 5
    player_color_rgb565 ← u16 view 6
    battery_level ← u8 view 8
    ok (
        slot_assignment (record {
          player_index = player_index;
          player_color_rgb565 = player_color_rgb565;
          battery_level = battery_level;
          host_name = host_name;
        }))

  decode_tv_text_input : DataView → Result MessagePayload
  unfolding get_uint8 sub_array
  decode_tv_text_input view = do
    expect_size MessageType.tv_text_input view
    raw_len ← read (get_uint8 5 view)
    let raw_bytes = sub_array 6 (min raw_len 31) view
    ok (tv_text_input (record { text = codec.decode raw_bytes }))

  -- The `switch` on the type byte.
  decode_payload : ℕ → DataView → Result MessagePayload
  unfolding decode_motion decode_gamepad_full decode_touchpad decode_keyboard decode_media
      decode_mode_switch decode_heartbeat decode_haptic_event decode_slot_assignment
      decode_tv_command decode_tv_text_input
  decode_payload type view =
      if type == type_code MessageType.motion
      then decode_motion view
      else if type == type_code MessageType.gamepad_full
      then decode_gamepad_full view
      else if type == type_code MessageType.touchpad
      then decode_touchpad view
      else if type == type_code MessageType.keyboard
      then decode_keyboard view
      else if type == type_code MessageType.media
      then decode_media view
      else if type == type_code MessageType.mode_switch
      then decode_mode_switch view
      else if type == type_code MessageType.heartbeat
      then decode_heartbeat view
      else if type == type_code MessageType.haptic_event
      then decode_haptic_event view
      else if type == type_code MessageType.slot_assignment
      then decode_slot_assignment view
      else if type == type_code MessageType.tv_command
      then decode_tv_command view
      else if type == type_code MessageType.tv_text_input
      then decode_tv_text_input view
      else throw (unknown_type type)

  decode_view : DataView → Result Packet
  unfolding decode_header decode_payload
  decode_view view = do
    header ← decode_header view
    payload ← decode_payload header.type view
    ok (record { header = header; payload = payload })

  unfoldable pub decode_packet : Input → Result Packet
  unfolding to_data_view decode_view
  decode_packet input = do view ← to_data_view input; decode_view view

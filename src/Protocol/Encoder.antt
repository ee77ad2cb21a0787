-- ===== src/Protocol/Encoder.antt =====
-- encoder.ts: `ProtocolEncoder`. An encoder is its one buffer, which every call overwrites from
-- offset 0; the frame that a call returns is a view of the buffer's beginning (`subarray`), not a
-- copy. A write past the capacity throws, here `none`.
pub mod Frames
pub mod Laws
use lookauniversalremote.Prelude.{
  ℕ, zero, suc, ◌+◌, min, ℤ, pos, List, [], ◌∷◌, Option, none, some, if◌then◌else◌, ltb, length,
  get_or, take, replicate,
}
use lookauniversalremote.Protocol.Constants.{
  MessageType, type_code, total_size, protocol_version, max_packet_size,
}
use lookauniversalremote.Protocol.Types.{
  Text, MotionPayload, GamepadFullPayload, TouchpadPayload, KeyboardPayload, MediaPayload,
  ModeSwitchPayload, HeartbeatPayload, HapticEventPayload, SlotAssignmentPayload, TvCommandPayload,
  TvTextInputPayload, MessagePayload, motion, gamepad_full, touchpad, keyboard, media, mode_switch,
  heartbeat, haptic, slot_assignment, tv_command, tv_text_input, Packet,
}
use lookauniversalremote.Protocol.View.{
  Write, ◌>>◌, set_uint8, set_int8, set_uint16, set_int16, set_uint32, TextCodec,
}

-- The buffer after a call, and the length of the view on it that the call returns.
pub record Encoded : Type 0 where
  pub buffer : List ℕ
  pub frame_length : ℕ

-- What a reader of the view finds, as long as the encoder is not called again.
abbrev pub frame_bytes : Encoded → List ℕ
frame_bytes e = take e.frame_length e.buffer

-- The constructor: `new ArrayBuffer(capacity)` is filled with zeros.
unfoldable pub new_encoder : ℕ → List ℕ
new_encoder capacity = replicate capacity 0

abbrev pub default_encoder : List ℕ
default_encoder = replicate max_packet_size 0

-- `u8View.subarray(0, n)` stops at the end of the buffer.
abbrev subarray : ℕ → Write Encoded
subarray n b = some (record { buffer = b; frame_length = length (take n b) })

-- `x ?? 0`
abbrev pub or_zero : Option ℤ → ℤ
or_zero none = pos 0
or_zero (some v) = v

write_header : MessageType → ℤ → ℤ → Write (List ℕ)
unfolding set_uint8 set_uint16
write_header type flags sequence = do
  set_uint8 0 (pos protocol_version)
  set_uint8 1 (pos (type_code type))
  set_uint8 2 flags
  set_uint16 3 sequence

unfoldable pub encode_motion : ℤ → ℤ → MotionPayload → Write Encoded
unfolding write_header set_int16 set_uint32
encode_motion sequence flags payload = do
  write_header MessageType.motion flags sequence
  set_int16 5 payload.gyro_yaw
  set_int16 7 payload.gyro_pitch
  set_int16 9 payload.gyro_roll
  set_int16 11 payload.accel_x
  set_int16 13 payload.accel_y
  set_int16 15 payload.accel_z
  set_uint32 17 payload.timestamp_us
  subarray (total_size MessageType.motion)

unfoldable pub encode_gamepad_full : ℤ → ℤ → GamepadFullPayload → Write Encoded
unfolding write_header set_int16 set_uint16 set_uint8
encode_gamepad_full sequence flags payload = do
  write_header MessageType.gamepad_full flags sequence
  set_uint16 5 payload.buttons
  set_int16 7 payload.stick_lx
  set_int16 9 payload.stick_ly
  set_int16 11 payload.stick_rx
  set_int16 13 payload.stick_ry
  set_uint8 15 payload.trigger_l
  set_uint8 16 payload.trigger_r
  set_uint8 17 (or_zero payload.player_index)
  set_uint8 18 (or_zero payload.reserved)
  subarray (total_size MessageType.gamepad_full)

unfoldable pub encode_touchpad : ℤ → ℤ → TouchpadPayload → Write Encoded
unfolding write_header set_int16 set_int8 set_uint8
encode_touchpad sequence flags payload = do
  write_header MessageType.touchpad flags sequence
  set_int16 5 payload.dx
  set_int16 7 payload.dy
  set_int8 9 payload.scroll_v
  set_int8 10 payload.scroll_h
  set_uint8 11 payload.buttons_mask
  subarray (total_size MessageType.touchpad)

unfoldable pub encode_keyboard : ℤ → ℤ → KeyboardPayload → Write Encoded
unfolding write_header set_uint16 set_uint8
encode_keyboard sequence flags payload = do
  write_header MessageType.keyboard flags sequence
  set_uint16 5 payload.key_code
  set_uint8 7 payload.state
  set_uint8 8 payload.modifiers
  subarray (total_size MessageType.keyboard)

unfoldable pub encode_media : ℤ → ℤ → MediaPayload → Write Encoded
unfolding write_header set_uint8
encode_media sequence flags payload = do
  write_header MessageType.media flags sequence
  set_uint8 5 payload.media_action
  set_uint8 6 (or_zero payload.reserved)
  subarray (total_size MessageType.media)

unfoldable pub encode_mode_switch : ℤ → ℤ → ModeSwitchPayload → Write Encoded
unfolding write_header set_uint8
encode_mode_switch sequence flags payload = do
  write_header MessageType.mode_switch flags sequence
  set_uint8 5 payload.target_mode
  set_uint8 6 payload.flags
  subarray (total_size MessageType.mode_switch)

unfoldable pub encode_heartbeat : ℤ → ℤ → HeartbeatPayload → Write Encoded
unfolding write_header set_uint32
encode_heartbeat sequence flags payload = do
  write_header MessageType.heartbeat flags sequence
  set_uint32 5 payload.client_epoch_ms
  set_uint32 9 payload.echo_token
  subarray (total_size MessageType.heartbeat)

unfoldable pub encode_haptic_event : ℤ → ℤ → HapticEventPayload → Write Encoded
unfolding write_header set_uint8 set_uint16
encode_haptic_event sequence flags payload = do
  write_header MessageType.haptic_event flags sequence
  set_uint8 5 payload.motor_index
  set_uint8 6 payload.intensity
  set_uint16 7 payload.duration_ms
  subarray (total_size MessageType.haptic_event)

unfoldable pub encode_tv_command : ℤ → ℤ → TvCommandPayload → Write Encoded
unfolding write_header set_uint8 set_uint16
encode_tv_command sequence flags payload = do
  write_header MessageType.tv_command flags sequence
  set_uint16 5 payload.command_code
  set_uint8 7 payload.target_device
  set_uint8 8 (or_zero payload.flags)
  subarray (total_size MessageType.tv_command)

-- The byte loops: `n` rounds from index `i`, each writing byte `i` of `bytes` at `base + i`, and 0
-- from index `len` on.
abbrev pub padded_byte : ℕ → List ℕ → ℕ → ℕ
padded_byte len bytes i = if ltb i len then get_or bytes i 0 else 0

write_padded : ℕ → ℕ → List ℕ → ℕ → ℕ → Write (List ℕ)
unfolding set_uint8
write_padded base len bytes zero i b = some b
write_padded base len bytes (suc n) i b =
    (set_uint8 (base + i) (pos (padded_byte len bytes i)) >> write_padded base len bytes n (i + 1))
      b

-- 'LookARemote Host'
abbrev pub default_host_name : Text
default_host_name =
    76 ∷ 111 ∷ 111 ∷ 107 ∷ 65 ∷ 82 ∷ 101 ∷ 109 ∷ 111 ∷ 116 ∷ 101 ∷ 32 ∷ 72 ∷ 111 ∷ 115 ∷ 116 ∷ []

-- `hostName || 'LookARemote Host'`
abbrev pub name_or_default : Text → Text
name_or_default [] = default_host_name
name_or_default (c ∷ s) = c ∷ s

module _ (codec : TextCodec) where
  unfoldable pub encode_slot_assignment : ℤ → ℤ → SlotAssignmentPayload → Write Encoded
  unfolding write_header set_uint8 set_uint16 write_padded
  encode_slot_assignment sequence flags payload = do
    write_header MessageType.slot_assignment flags sequence
    set_uint8 5 payload.player_index
    set_uint16 6 payload.player_color_rgb565
    set_uint8 8 payload.battery_level
    let name_bytes = codec.encode (name_or_default payload.host_name)
    write_padded 9 (length name_bytes) name_bytes 16 0
    subarray (total_size MessageType.slot_assignment)

  -- `text || ''` is the text itself.
  unfoldable pub encode_tv_text_input : ℤ → ℤ → TvTextInputPayload → Write Encoded
  unfolding write_header set_uint8 write_padded
  encode_tv_text_input sequence flags payload = do
    write_header MessageType.tv_text_input flags sequence
    let text_bytes = codec.encode payload.text
    let len = min (length text_bytes) 31
    set_uint8 5 (pos len)
    write_padded 6 len text_bytes 31 0
    subarray (total_size MessageType.tv_text_input)

  unfoldable pub encode_payload : ℤ → ℤ → MessagePayload → Write Encoded
  unfolding encode_motion encode_gamepad_full encode_touchpad encode_keyboard encode_media
      encode_mode_switch encode_heartbeat encode_haptic_event encode_slot_assignment
      encode_tv_command encode_tv_text_input
  encode_payload sequence flags (motion p) = encode_motion sequence flags p
  encode_payload sequence flags (gamepad_full p) = encode_gamepad_full sequence flags p
  encode_payload sequence flags (touchpad p) = encode_touchpad sequence flags p
  encode_payload sequence flags (keyboard p) = encode_keyboard sequence flags p
  encode_payload sequence flags (media p) = encode_media sequence flags p
  encode_payload sequence flags (mode_switch p) = encode_mode_switch sequence flags p
  encode_payload sequence flags (heartbeat p) = encode_heartbeat sequence flags p
  encode_payload sequence flags (haptic p) = encode_haptic_event sequence flags p
  encode_payload sequence flags (slot_assignment p) = encode_slot_assignment sequence flags p
  encode_payload sequence flags (tv_command p) = encode_tv_command sequence flags p
  encode_payload sequence flags (tv_text_input p) = encode_tv_text_input sequence flags p

  unfoldable pub encode : Packet → Write Encoded
  unfolding encode_payload
  encode packet = encode_payload packet.header.sequence packet.header.flags packet.payload

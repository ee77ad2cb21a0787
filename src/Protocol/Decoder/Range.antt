-- ===== src/Protocol/Decoder/Range.antt =====
-- The packets whose fields fit their widths on the wire: they come back unchanged.
use lookauniversalremote.Prelude.{
  ℕ, ◌≤◌, ◌<◌, ◌≡◌, refl, ap, ◌∙◌, arith, ℤ, pos, List, [], ◌∷◌, Option, none, some, length, take,
  All, take-eq_self, IsU8, IsU16, IsU32, IsI8, IsI16, word8, word8-IsU8, word16-IsU16, word32-IsU32,
  word8-IsI8, word16-IsI16,
}
use lookauniversalremote.Protocol.Constants.{type_code}
use lookauniversalremote.Protocol.Types.{
  Text, MessagePayload, motion, gamepad_full, touchpad, keyboard, media, mode_switch, heartbeat,
  haptic, slot_assignment, tv_command, tv_text_input, Packet,
}
use lookauniversalremote.Protocol.View.{TextCodec, IsAscii}
use lookauniversalremote.Protocol.Encoder.{encode, frame_bytes, Encoded, name_or_default, or_zero}
use lookauniversalremote.Protocol.Encoder.Frames.{payload_type}
use lookauniversalremote.Protocol.Reader.{ok, array_buffer}
use lookauniversalremote.Protocol.Decoder.{decode_packet, until_null}
use lookauniversalremote.Protocol.Decoder.Text.{until_null-id}
use lookauniversalremote.Protocol.Decoder.RoundTrip.{as_sent, sent_packet, decode-encode}

-- An optional byte that is given.
abbrev IsGivenU8 : Option ℤ → Type 0
IsGivenU8 none = ⊥
IsGivenU8 (some v) = IsU8 v

-- ASCII text with no null character, of at most `n` characters.
abbrev FitsAscii : ℕ → Text → Type 0
FitsAscii n s = IsAscii s × All (λ c. 0 < c) s × (length s ≤ n)

-- Every field within the range that types.ts states for it.
abbrev pub IsInRange : MessagePayload → Type 0
IsInRange (motion p) =
    IsI16 p.gyro_yaw
    × IsI16 p.gyro_pitch
    × IsI16 p.gyro_roll
    × IsI16 p.accel_x
    × IsI16 p.accel_y
    × IsI16 p.accel_z
    × IsU32 p.timestamp_us
IsInRange (gamepad_full p) =
    IsU16 p.buttons
    × IsI16 p.stick_lx
    × IsI16 p.stick_ly
    × IsI16 p.stick_rx
    × IsI16 p.stick_ry
    × IsU8 p.trigger_l
    × IsU8 p.trigger_r
    × IsGivenU8 p.player_index
    × IsGivenU8 p.reserved
IsInRange (touchpad p) =
    IsI16 p.dx × IsI16 p.dy × IsI8 p.scroll_v × IsI8 p.scroll_h × IsU8 p.buttons_mask
IsInRange (keyboard p) = IsU16 p.key_code × IsU8 p.state × IsU8 p.modifiers
IsInRange (media p) = IsU8 p.media_action × IsGivenU8 p.reserved
IsInRange (mode_switch p) = IsU8 p.target_mode × IsU8 p.flags
IsInRange (heartbeat p) = IsU32 p.client_epoch_ms × IsU32 p.echo_token
IsInRange (haptic p) = IsU8 p.motor_index × IsU8 p.intensity × IsU16 p.duration_ms
IsInRange (slot_assignment p) =
    IsU8 p.player_index
    × IsU16 p.player_color_rgb565
    × IsU8 p.battery_level
    × FitsAscii 16 p.host_name
    × (0 < length p.host_name)
IsInRange (tv_command p) = IsU16 p.command_code × IsU8 p.target_device × IsGivenU8 p.flags
IsInRange (tv_text_input p) = FitsAscii 31 p.text

-- A whole packet, its header the one of its payload's type.
pub record IsPlain (packet : Packet) : Type 0 where
  pub version_ok : packet.header.version ≡ 1
  pub type_ok : packet.header.type ≡ type_code (payload_type packet.payload)
  pub flags_ok : IsU8 packet.header.flags
  pub sequence_ok : IsU16 packet.header.sequence
  pub payload_ok : IsInRange packet.payload

given_u8 : (o : Option ℤ) → IsGivenU8 o → some (pos (word8 (or_zero o))) ≡ o
given_u8 none h = absurd h
given_u8 (some v) h = ap some (word8-IsU8 v h)

name_kept : (s : Text) → 0 < length s → name_or_default s ≡ s
name_kept [] h = absurd (omega arith)
name_kept (c ∷ s) h = refl

module _ (codec : TextCodec) where
  text_kept : (n : ℕ) (s : Text) → FitsAscii n s → codec.decode (take n (codec.encode s)) ≡ s
  text_kept n s h = rw (codec.encode_ascii s h.0, take-eq_self n s h.2) (codec.decode_ascii s h.0)

  host_name_kept :
      (s : Text)
      → FitsAscii 16 s
      → 0 < length s
      → codec.decode (until_null (take 16 (codec.encode (name_or_default s)))) ≡ s
  host_name_kept s h given =
      rw (name_kept s given, codec.encode_ascii s h.0, take-eq_self 16 s h.2, until_null-id s h.1)
        (codec.decode_ascii s h.0)

  pub as_sent-id : (p : MessagePayload) → IsInRange p → as_sent codec p ≡ p
  as_sent-id (motion p) h =
      rw
        (
          word16-IsI16 p.gyro_yaw h.0,
          word16-IsI16 p.gyro_pitch h.1,
          word16-IsI16 p.gyro_roll h.2,
          word16-IsI16 p.accel_x h.3,
          word16-IsI16 p.accel_y h.4,
          word16-IsI16 p.accel_z h.5,
          word32-IsU32 p.timestamp_us h.6,
        )
        refl
  as_sent-id (gamepad_full p) h =
      rw
        (
          word16-IsU16 p.buttons h.0,
          word16-IsI16 p.stick_lx h.1,
          word16-IsI16 p.stick_ly h.2,
          word16-IsI16 p.stick_rx h.3,
          word16-IsI16 p.stick_ry h.4,
          word8-IsU8 p.trigger_l h.5,
          word8-IsU8 p.trigger_r h.6,
          given_u8 p.player_index h.7,
          given_u8 p.reserved h.8,
        )
        refl
  as_sent-id (touchpad p) h =
      rw
        (
          word16-IsI16 p.dx h.0,
          word16-IsI16 p.dy h.1,
          word8-IsI8 p.scroll_v h.2,
          word8-IsI8 p.scroll_h h.3,
          word8-IsU8 p.buttons_mask h.4,
        )
        refl
  as_sent-id (keyboard p) h =
      rw (word16-IsU16 p.key_code h.0, word8-IsU8 p.state h.1, word8-IsU8 p.modifiers h.2) refl
  as_sent-id (media p) h = rw (word8-IsU8 p.media_action h.0, given_u8 p.reserved h.1) refl
  as_sent-id (mode_switch p) h = rw (word8-IsU8 p.target_mode h.0, word8-IsU8 p.flags h.1) refl
  as_sent-id (heartbeat p) h =
      rw (word32-IsU32 p.client_epoch_ms h.0, word32-IsU32 p.echo_token h.1) refl
  as_sent-id (haptic p) h =
      rw (word8-IsU8 p.motor_index h.0, word8-IsU8 p.intensity h.1, word16-IsU16 p.duration_ms h.2)
        refl
  as_sent-id (slot_assignment p) h =
      rw
        (
          word8-IsU8 p.player_index h.0,
          word16-IsU16 p.player_color_rgb565 h.1,
          word8-IsU8 p.battery_level h.2,
          host_name_kept p.host_name h.3 h.4,
        )
        refl
  as_sent-id (tv_command p) h =
      rw (word16-IsU16 p.command_code h.0, word8-IsU8 p.target_device h.1, given_u8 p.flags h.2)
        refl
  as_sent-id (tv_text_input p) h = rw (text_kept 31 p.text h)

  sent_packet-id :
      (packet : Packet)
      → IsPlain packet
      → sent_packet codec packet.header.sequence packet.header.flags packet.payload ≡ packet
  sent_packet-id packet h = cc (
    word8-IsU8 packet.header.flags h.flags_ok,
    word16-IsU16 packet.header.sequence h.sequence_ok,
    as_sent-id packet.payload h.payload_ok,
    h.version_ok,
    h.type_ok,
  )

-- A packet with version 1, the type of its payload, flags of a byte, a sequence number of 16 bits,
-- every number of its payload in the range of its field, every optional field given, a host name of 1
-- to 16 and a text of at most 31 characters of ASCII without NUL, is encoded over a buffer of at
-- least 37 bytes and decoded from the view that the encoder returns as exactly the same packet.
pub decode-encode_plain :
    (codec : TextCodec) (packet : Packet) (b : List ℕ)
    → 37 ≤ length b
    → IsPlain packet
    → (e : Encoded) × (encode codec packet b ≡ some e)
      × (decode_packet codec (array_buffer (frame_bytes e)) ≡ ok packet)
decode-encode_plain codec packet b room plain =
    let (e, done, back) = decode-encode codec packet b room in
    (e, done, back ∙ ap ok (sent_packet-id codec packet plain))

-- ===== src/Protocol/Decoder/RoundTrip.antt =====
-- Decoding what was encoded.
use lookauniversalremote.Prelude.{
  ℕ, ◌≤◌, ◌≡◌, arith, ap, ◌∙◌, sym, ℤ, pos, List, some, length, take, drop, take_of_append, min,
  word8, word16, word32, signed8, signed16,
}
use lookauniversalremote.Protocol.Constants.{type_code}
use lookauniversalremote.Protocol.Types.{
  Text, Header, MessagePayload, motion, gamepad_full, touchpad, keyboard, media, mode_switch,
  heartbeat, haptic, slot_assignment, tv_command, tv_text_input, Packet, SlotAssignmentPayload,
  TvTextInputPayload,
}
use lookauniversalremote.Protocol.View.{TextCodec}
use lookauniversalremote.Protocol.Encoder.{encode, or_zero, name_or_default, frame_bytes, Encoded}
use lookauniversalremote.Protocol.Encoder.Frames.{frame, payload_type, pad}
use mathlib.Core.Path.{subst}
use lookauniversalremote.Protocol.Encoder.Laws.{slot_frame, text_frame, encode-layout, written}
use lookauniversalremote.Protocol.Reader.{ok, array_buffer}
use lookauniversalremote.Protocol.Decoder.{decode_packet, until_null}
use lookauniversalremote.Protocol.Decoder.Text.{
  pad-Cells, until_null-pad, take-pad, le16_value, le32_value,
}

module _ (codec : TextCodec) where
  -- A payload after the fields are cut to their widths on the wire.
  abbrev pub as_sent : MessagePayload → MessagePayload
  as_sent (motion p) = motion (record {
    gyro_yaw = signed16 (word16 p.gyro_yaw);
    gyro_pitch = signed16 (word16 p.gyro_pitch);
    gyro_roll = signed16 (word16 p.gyro_roll);
    accel_x = signed16 (word16 p.accel_x);
    accel_y = signed16 (word16 p.accel_y);
    accel_z = signed16 (word16 p.accel_z);
    timestamp_us = pos (word32 p.timestamp_us);
  })
  as_sent (gamepad_full p) = gamepad_full (record {
    buttons = pos (word16 p.buttons);
    stick_lx = signed16 (word16 p.stick_lx);
    stick_ly = signed16 (word16 p.stick_ly);
    stick_rx = signed16 (word16 p.stick_rx);
    stick_ry = signed16 (word16 p.stick_ry);
    trigger_l = pos (word8 p.trigger_l);
    trigger_r = pos (word8 p.trigger_r);
    player_index = some (pos (word8 (or_zero p.player_index)));
    reserved = some (pos (word8 (or_zero p.reserved)));
  })
  as_sent (touchpad p) = touchpad (record {
    dx = signed16 (word16 p.dx);
    dy = signed16 (word16 p.dy);
    scroll_v = signed8 (word8 p.scroll_v);
    scroll_h = signed8 (word8 p.scroll_h);
    buttons_mask = pos (word8 p.buttons_mask);
  })
  as_sent (keyboard p) = keyboard (record {
    key_code = pos (word16 p.key_code);
    state = pos (word8 p.state);
    modifiers = pos (word8 p.modifiers);
  })
  as_sent (media p) = media (record {
    media_action = pos (word8 p.media_action);
    reserved = some (pos (word8 (or_zero p.reserved)));
  })
  as_sent (mode_switch p) =
      mode_switch (record { target_mode = pos (word8 p.target_mode); flags = pos (word8 p.flags) })
  as_sent (heartbeat p) = heartbeat (record {
    client_epoch_ms = pos (word32 p.client_epoch_ms);
    echo_token = pos (word32 p.echo_token);
  })
  as_sent (haptic p) = haptic (record {
    motor_index = pos (word8 p.motor_index);
    intensity = pos (word8 p.intensity);
    duration_ms = pos (word16 p.duration_ms);
  })
  as_sent (slot_assignment p) = slot_assignment (record {
    player_index = pos (word8 p.player_index);
    player_color_rgb565 = pos (word16 p.player_color_rgb565);
    battery_level = pos (word8 p.battery_level);
    host_name = codec.decode (until_null (take 16 (codec.encode (name_or_default p.host_name))));
  })
  as_sent (tv_command p) = tv_command (record {
    command_code = pos (word16 p.command_code);
    target_device = pos (word8 p.target_device);
    flags = some (pos (word8 (or_zero p.flags)));
  })
  as_sent (tv_text_input p) =
      tv_text_input (record { text = codec.decode (take 31 (codec.encode p.text)) })

  abbrev pub sent_header : ℤ → ℤ → MessagePayload → Header
  sent_header s f p = record {
    version = 1;
    type = type_code (payload_type p);
    flags = pos (word8 f);
    sequence = pos (word16 s);
  }

  abbrev pub sent_packet : ℤ → ℤ → MessagePayload → Packet
  sent_packet s f p = record { header = sent_header s f p; payload = as_sent p }

  -- What a slot frame decodes to, by the text found in its last field.
  abbrev slot_packet : ℤ → ℤ → SlotAssignmentPayload → Text → Packet
  slot_packet s f p name = record {
    header = sent_header s f (slot_assignment p);
    payload = slot_assignment (record {
      player_index = pos (word8 p.player_index);
      player_color_rgb565 = pos (word16 p.player_color_rgb565);
      battery_level = pos (word8 p.battery_level);
      host_name = name;
    });
  }

  abbrev text_packet : ℤ → ℤ → TvTextInputPayload → Text → Packet
  text_packet s f p t = record {
    header = sent_header s f (tv_text_input p);
    payload = tv_text_input (record { text = t });
  }

  slot_read :
      (s f : ℤ) (p : SlotAssignmentPayload) (bs : List ℕ)
      → decode_packet codec (array_buffer (slot_frame codec s f p (pad 16 bs)))
        ≡ ok (slot_packet s f p (codec.decode (until_null (take 16 bs))))
  unfolding decode_packet
  slot_read s f p bs =
      let (c, e) = pad-Cells 16 bs in
      let found : decode_packet codec (array_buffer (slot_frame codec s f p (pad 16 bs)))
          ≡ ok (slot_packet s f p (codec.decode (until_null (pad 16 bs)))) =
        subst
          (λ xs.
            decode_packet codec (array_buffer (slot_frame codec s f p xs))
            ≡ ok (slot_packet s f p (codec.decode (until_null xs))))
          (sym e) (simp le16_value) in
      found ∙ ap (λ t. ok (slot_packet s f p (codec.decode t))) (until_null-pad 16 bs)

  text_read :
      (s f : ℤ) (p : TvTextInputPayload) (bs : List ℕ)
      → decode_packet codec (array_buffer (text_frame codec s f (min (length bs) 31) (pad 31 bs)))
        ≡ ok (text_packet s f p (codec.decode (take 31 bs)))
  unfolding decode_packet
  text_read s f p bs =
      let (c, e) = pad-Cells 31 bs in
      let n = min (length bs) 31 in
      let found : decode_packet codec (array_buffer (text_frame codec s f n (pad 31 bs)))
          ≡ ok (text_packet s f p (codec.decode (take (min n 31) (pad 31 bs)))) =
        subst
          (λ xs.
            decode_packet codec (array_buffer (text_frame codec s f n xs))
            ≡ ok (text_packet s f p (codec.decode (take (min n 31) xs))))
          (sym e) (simp le16_value) in
      let once : min n 31 ≡ n = omega arith in
      found
      ∙ ap (λ k. ok (text_packet s f p (codec.decode (take k (pad 31 bs))))) once
      ∙ ap (λ t. ok (text_packet s f p (codec.decode t))) (take-pad 31 bs)

  pub decode-frame :
      (s f : ℤ) (p : MessagePayload)
      → decode_packet codec (array_buffer (frame codec s f p)) ≡ ok (sent_packet s f p)
  unfolding decode_packet
  decode-frame s f (motion p) = simp (le16_value, le32_value)
  decode-frame s f (gamepad_full p) = simp le16_value
  decode-frame s f (touchpad p) = simp le16_value
  decode-frame s f (keyboard p) = simp le16_value
  decode-frame s f (media p) = simp le16_value
  decode-frame s f (mode_switch p) = simp le16_value
  decode-frame s f (heartbeat p) = simp (le16_value, le32_value)
  decode-frame s f (haptic p) = simp le16_value
  decode-frame s f (slot_assignment p) =
      slot_read s f p (codec.encode (name_or_default p.host_name))
  decode-frame s f (tv_command p) = simp le16_value
  decode-frame s f (tv_text_input p) = text_read s f p (codec.encode p.text)

-- Every packet of a kind that has a codec, encoded by an encoder with room for the longest frame and
-- decoded from the view that the encoder returns, is accepted, and comes back with each field cut to
-- its width on the wire and the texts cut to 16 and 31 bytes.
pub decode-encode :
    (codec : TextCodec) (packet : Packet) (b : List ℕ)
    → 37 ≤ length b
    → (e : Encoded) × (encode codec packet b ≡ some e)
      × (decode_packet codec (array_buffer (frame_bytes e))
          ≡ ok (sent_packet codec packet.header.sequence packet.header.flags packet.payload))
decode-encode codec packet b h =
    let bytes = frame codec packet.header.sequence packet.header.flags packet.payload in
    (
      written bytes b,
      encode-layout codec packet b h,
      rw (take_of_append bytes (drop (length bytes) b))
          (decode-frame codec packet.header.sequence packet.header.flags packet.payload),
    )

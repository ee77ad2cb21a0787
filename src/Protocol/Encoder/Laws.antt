-- ===== src/Protocol/Encoder/Laws.antt =====
-- What `ProtocolEncoder` does to its buffer.
use lookauniversalremote.Prelude.{
  ℕ, ◌≤◌, ◌≡◌, refl, ap, ap₂, ◌∙◌, arith, ℤ, pos, List, ◌∷◌, ◌++◌, some, length, drop, min,
  to_cells, word8, word8-pos, word16,
}
use lookauniversalremote.Protocol.Constants.{MessageType}
use lookauniversalremote.Protocol.Types.{
  Text, MessagePayload, motion, gamepad_full, touchpad, keyboard, media, mode_switch, heartbeat,
  haptic, slot_assignment, tv_command, tv_text_input, Packet, SlotAssignmentPayload,
  TvTextInputPayload,
}
use lookauniversalremote.Protocol.View.{TextCodec}
use lookauniversalremote.Protocol.Encoder.{
  Encoded, encode, encode_payload, encode_slot_assignment, encode_tv_text_input, name_or_default,
}
use lookauniversalremote.Protocol.Encoder.Frames.{
  frame, header_bytes, le16, loop_bytes, loop_bytes-pad, padded_byte-length, padded_byte-min, pad,
}

-- The result of a call that overwrites the beginning of the buffer by `bytes`.
abbrev pub written : List ℕ → List ℕ → Encoded
written bytes b = record { buffer = bytes ++ drop (length bytes) b; frame_length = length bytes }

module _ (codec : TextCodec) (s f : ℤ) where
  text_loop_pads :
      (limit : ℕ) (t : Text)
      → loop_bytes (length (codec.encode t)) (codec.encode t) limit 0 ≡ pad limit (codec.encode t)
  text_loop_pads limit t =
      loop_bytes-pad _ limit _ (padded_byte-length limit (codec.encode t)) (codec.encode_bytes t)
        limit 0 (omega arith)

  cut_loop_pads :
      (t : Text)
      → loop_bytes (min (length (codec.encode t)) 31) (codec.encode t) 31 0
        ≡ pad 31 (codec.encode t)
  cut_loop_pads t =
      loop_bytes-pad _ 31 _ (padded_byte-min 31 (codec.encode t)) (codec.encode_bytes t) 31 0
        (omega arith)

  -- The frame with its last field given as bytes.
  abbrev pub slot_frame : SlotAssignmentPayload → List ℕ → List ℕ
  slot_frame p name =
      header_bytes MessageType.slot_assignment s f
      ++ (word8 p.player_index
          ∷ (le16 (word16 p.player_color_rgb565) ++ (word8 p.battery_level ∷ name)))

  abbrev pub text_frame : ℕ → List ℕ → List ℕ
  text_frame len text = header_bytes MessageType.tv_text_input s f ++ (len ∷ text)

  slot_layout :
      (p : SlotAssignmentPayload) (b : List ℕ)
      → 37 ≤ length b
      → encode_slot_assignment codec s f p b
        ≡ some (written (frame codec s f (slot_assignment p)) b)
  unfolding encode_slot_assignment word8
  slot_layout p b h =
      let (c, e) = to_cells 25 b (omega arith) in
      let name = name_or_default p.host_name in
      let bytes = codec.encode name in
      let stored : encode_slot_assignment codec s f p b
          ≡ some (written (slot_frame p (loop_bytes (length bytes) bytes 16 0)) b) =
        rw e refl in
      stored ∙ ap (λ t. some (written (slot_frame p t) b)) (text_loop_pads 16 name)

  text_layout :
      (p : TvTextInputPayload) (b : List ℕ)
      → 37 ≤ length b
      → encode_tv_text_input codec s f p b ≡ some (written (frame codec s f (tv_text_input p)) b)
  unfolding encode_tv_text_input word8
  text_layout p b h =
      let (c, e) = to_cells 37 b h in
      let bytes = codec.encode p.text in
      let len = min (length bytes) 31 in
      let stored : encode_tv_text_input codec s f p b
          ≡ some (written (text_frame (word8 (pos len)) (loop_bytes len bytes 31 0)) b) =
        rw e refl in
      stored
      ∙ ap₂ (λ n t. some (written (text_frame n t) b)) (word8-pos len (omega arith))
          (cut_loop_pads p.text)

  pub payload_layout :
      (p : MessagePayload) (b : List ℕ)
      → 37 ≤ length b
      → encode_payload codec s f p b ≡ some (written (frame codec s f p) b)
  unfolding encode_payload word8
  payload_layout (motion p) b h = let (c, e) = to_cells 21 b (omega arith) in rw e refl
  payload_layout (gamepad_full p) b h = let (c, e) = to_cells 19 b (omega arith) in rw e refl
  payload_layout (touchpad p) b h = let (c, e) = to_cells 12 b (omega arith) in rw e refl
  payload_layout (keyboard p) b h = let (c, e) = to_cells 9 b (omega arith) in rw e refl
  payload_layout (media p) b h = let (c, e) = to_cells 7 b (omega arith) in rw e refl
  payload_layout (mode_switch p) b h = let (c, e) = to_cells 7 b (omega arith) in rw e refl
  payload_layout (heartbeat p) b h = let (c, e) = to_cells 13 b (omega arith) in rw e refl
  payload_layout (haptic p) b h = let (c, e) = to_cells 9 b (omega arith) in rw e refl
  payload_layout (slot_assignment p) b h = slot_layout p b h
  payload_layout (tv_command p) b h = let (c, e) = to_cells 9 b (omega arith) in rw e refl
  payload_layout (tv_text_input p) b h = text_layout p b h

-- With room for the longest frame, 37 bytes, a call writes exactly the frame of the layout that
-- `frame` gives field by field, with no buffer and no offsets, over the beginning of the buffer,
-- whatever the buffer held, keeps the rest, and returns a view of just those bytes. So no byte of an earlier frame is ever sent again.
pub encode-layout :
    (codec : TextCodec) (packet : Packet) (b : List ℕ)
    → 37 ≤ length b
    → encode codec packet b
      ≡ some (written (frame codec packet.header.sequence packet.header.flags packet.payload) b)
unfolding encode
encode-layout codec packet b h =
    payload_layout codec packet.header.sequence packet.header.flags packet.payload b h

-- ===== src/Bridge/Send.antt =====
-- The send operations of the bridge together: what reaches the transport over any sequence of them.
pub mod Stream
use lookauniversalremote.Prelude.{
  ℕ, suc, ◌+◌, ◌%◌, ◌≤◌, ◌<◌, ◌≡◌, refl, ap, arith, Bool, true, ℤ, pos, word16, word16-lt, List, [],
  ◌∷◌, ◌++◌, map, length, drop, Option, none, some, length-append, length-drop,
}
use lookauniversalremote.Protocol.Constants.{emergency_reset}
use lookauniversalremote.Protocol.Types.{
  Text, MotionPayload, GamepadFullPayload, TouchpadPayload, KeyboardPayload, MediaPayload,
  ModeSwitchPayload, SlotAssignmentPayload, MessagePayload, Packet,
}
use lookauniversalremote.Protocol.View.{TextCodec, Write}
use lookauniversalremote.Protocol.Encoder.{Encoded, encode_payload, or_zero}
use lookauniversalremote.Protocol.Encoder.Frames.{frame}
use lookauniversalremote.Protocol.Encoder.Laws.{written, payload_layout}
use lookauniversalremote.Protocol.Sequence.{SequenceGenerator, next}
use lookauniversalremote.Protocol.Reader.{Result, ok, array_buffer}
use lookauniversalremote.Protocol.Decoder.{decode_packet}
use lookauniversalremote.Protocol.Decoder.RoundTrip.{sent_packet, decode-frame}
use lookauniversalremote.Bridge.{
  Bridge, TvCommandRequest, epoch_ms, transmit, Sent, send_motion, send_gamepad_full, send_touchpad,
  send_keyboard, send_media, send_mode_switch, send_heartbeat, send_slot_assignment,
  send_tv_command, send_tv_text_input, send_emergency_reset,
}

-- A call of one of the send operations, with its arguments.
pub data Request : Type 0 where
  motion : MotionPayload → ℤ → Request
  gamepad_full : GamepadFullPayload → ℤ → Request
  touchpad : TouchpadPayload → ℤ → Request
  keyboard : KeyboardPayload → ℤ → Request
  media : MediaPayload → ℤ → Request
  mode_switch : ModeSwitchPayload → ℤ → Request
  heartbeat : ℕ → ℤ → ℤ → Request
  slot_assignment : SlotAssignmentPayload → ℤ → Request
  tv_command : TvCommandRequest → ℤ → Request
  tv_text_input : Text → ℤ → Request
  emergency : ℕ → Request

-- The message that a call means.
abbrev pub message : Request → MessagePayload
message (motion p f) = MessagePayload.motion p
message (gamepad_full p f) = MessagePayload.gamepad_full p
message (touchpad p f) = MessagePayload.touchpad p
message (keyboard p f) = MessagePayload.keyboard p
message (media p f) = MessagePayload.media p
message (mode_switch p f) = MessagePayload.mode_switch p
message (heartbeat now token f) =
    MessagePayload.heartbeat (record { client_epoch_ms = epoch_ms now; echo_token = token })
message (slot_assignment p f) = MessagePayload.slot_assignment p
message (tv_command r f) = MessagePayload.tv_command (record {
  command_code = r.command_code;
  target_device = or_zero r.target_device;
  flags = some (or_zero r.flags);
})
message (tv_text_input t f) = MessagePayload.tv_text_input (record { text = t })
message (emergency now) =
    MessagePayload.heartbeat (record { client_epoch_ms = epoch_ms now; echo_token = pos 0 })

abbrev pub message_flags : Request → ℤ
message_flags (motion p f) = f
message_flags (gamepad_full p f) = f
message_flags (touchpad p f) = f
message_flags (keyboard p f) = f
message_flags (media p f) = f
message_flags (mode_switch p f) = f
message_flags (heartbeat now token f) = f
message_flags (slot_assignment p f) = f
message_flags (tv_command r f) = f
message_flags (tv_text_input t f) = f
message_flags (emergency now) = pos emergency_reset

-- The bridge is usable: its encoder has room for every frame, its counter is 16 bits wide.
pub record IsReady (b : Bridge) : Type 0 where
  pub room : 37 ≤ length b.encoder
  pub counter : b.sequence_gen.current < 65536

module _ (codec : TextCodec) {W : Type 0} (send : W → List ℕ → W × Bool) where
  pub perform : Request → Bridge → W → Sent codec send
  perform (motion p f) b w = send_motion codec send b w p f
  perform (gamepad_full p f) b w = send_gamepad_full codec send b w p f
  perform (touchpad p f) b w = send_touchpad codec send b w p f
  perform (keyboard p f) b w = send_keyboard codec send b w p f
  perform (media p f) b w = send_media codec send b w p f
  perform (mode_switch p f) b w = send_mode_switch codec send b w p f
  perform (heartbeat now token f) b w = send_heartbeat codec send b w now token f
  perform (slot_assignment p f) b w = send_slot_assignment codec send b w p f
  perform (tv_command r f) b w = send_tv_command codec send b w r f
  perform (tv_text_input t f) b w = send_tv_text_input codec send b w t f
  perform (emergency now) b w = send_emergency_reset codec send b w now

  -- The bridge after a frame of the bytes `bytes`.
  abbrev pub after : Bridge → List ℕ → Bridge
  after b bytes = record b {
    encoder = bytes ++ drop (length bytes) b.encoder;
    sequence_gen = record { current = word16 (pos (b.sequence_gen.current + 1)) };
  }

  perform-transmit :
      (r : Request) (b : Bridge) (w : W)
      → perform r b w
        ≡ transmit codec send b w (λ seq. encode_payload codec seq (message_flags r) (message r))
  unfolding perform send_motion send_gamepad_full send_touchpad send_keyboard send_media
      send_mode_switch send_heartbeat send_slot_assignment send_tv_command send_tv_text_input
      send_emergency_reset encode_payload
  perform-transmit (motion p f) b w = refl
  perform-transmit _ b w = refl

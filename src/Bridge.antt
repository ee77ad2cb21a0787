-- ===== src/Bridge.antt =====
-- apps/web-client/src/transport/ProtocolBridge.ts: the bridge between the views and the transport.
-- The transport is a parameter: a state `W` and `send`, which takes the bytes of the frame as they
-- stand at the call and answers whether they were sent. `Date.now()` is an argument.
pub mod Incoming
pub mod Send
pub mod Receive
pub mod Listeners
use lookauniversalremote.Prelude.{
  ℕ, Bool, true, false, ℤ, pos, word32, signed32, List, [], Option, none, some,
}
use lookauniversalremote.Protocol.Constants.{emergency_reset, generic_tv}
use lookauniversalremote.Protocol.Types.{
  Text, MotionPayload, GamepadFullPayload, TouchpadPayload, KeyboardPayload, MediaPayload,
  ModeSwitchPayload, SlotAssignmentPayload,
}
use lookauniversalremote.Protocol.View.{Write, TextCodec}
use lookauniversalremote.Protocol.Encoder.{
  Encoded, frame_bytes, default_encoder, or_zero, encode_motion, encode_gamepad_full,
  encode_touchpad, encode_keyboard, encode_media, encode_mode_switch, encode_heartbeat,
  encode_slot_assignment, encode_tv_command, encode_tv_text_input,
}
use lookauniversalremote.Protocol.Sequence.{SequenceGenerator, new_generator, next}

-- The listeners are names for functions. `bound` says whether `unbindTransportData` is set, that
-- is, whether incoming frames reach `handleIncomingData`.
pub record Bridge : Type 0 where
  pub encoder : List ℕ
  pub sequence_gen : SequenceGenerator
  pub packet_handlers : List ℕ
  pub rtt_handlers : List ℕ
  pub slot_handlers : List ℕ
  pub bound : Bool

unfoldable pub new_bridge : Bridge
unfolding new_generator
new_bridge = record {
  encoder = default_encoder;
  sequence_gen = new_generator (pos 1);
  packet_handlers = [];
  rtt_handlers = [];
  slot_handlers = [];
  bound = true;
}

unfoldable pub bind_transport : Bridge → Bridge
bind_transport b = record b { bound = true }

unfoldable pub destroy : Bridge → Bridge
destroy b = record b { bound = false }

-- `Date.now() & 0xffffffff` is a signed 32-bit integer.
abbrev pub epoch_ms : ℕ → ℤ
epoch_ms now = signed32 (word32 (pos now))

-- `payload.targetDevice ?? 0` and `payload.flags ?? 0`.
pub record TvCommandRequest : Type 0 where
  pub command_code : ℤ
  pub target_device : Option ℤ
  pub flags : Option ℤ

module _ (codec : TextCodec) {W : Type 0} (send : W → List ℕ → W × Bool) where
  -- The answer of a send operation: the bridge, the transport and whether the frame was sent.
  -- `none` is a RangeError of the encoder.
  abbrev pub Sent : Type 0
  Sent = Option (Bridge × W × Bool)

  -- `next()`, an encoding and `send`: the body of every operation below.
  transmit : Bridge → W → (ℤ → Write Encoded) → Sent
  unfolding next
  transmit b w encoding =
      let (gen, seq) = next b.sequence_gen in
      elim (encoding (pos seq) b.encoder) [
        | none ↦ none
        | some e ↦
            let (w', sent) = send w (frame_bytes e) in
            some (record b { encoder = e.buffer; sequence_gen = gen }, w', sent)
      ]

  unfoldable pub send_motion : Bridge → W → MotionPayload → ℤ → Sent
  unfolding transmit
  send_motion b w payload flags = transmit b w (λ seq. encode_motion seq flags payload)

  unfoldable pub send_gamepad_full : Bridge → W → GamepadFullPayload → ℤ → Sent
  unfolding transmit
  send_gamepad_full b w payload flags = transmit b w (λ seq. encode_gamepad_full seq flags payload)

  unfoldable pub send_touchpad : Bridge → W → TouchpadPayload → ℤ → Sent
  unfolding transmit
  send_touchpad b w payload flags = transmit b w (λ seq. encode_touchpad seq flags payload)

  unfoldable pub send_keyboard : Bridge → W → KeyboardPayload → ℤ → Sent
  unfolding transmit
  send_keyboard b w payload flags = transmit b w (λ seq. encode_keyboard seq flags payload)

  unfoldable pub send_media : Bridge → W → MediaPayload → ℤ → Sent
  unfolding transmit
  send_media b w payload flags = transmit b w (λ seq. encode_media seq flags payload)

  unfoldable pub send_mode_switch : Bridge → W → ModeSwitchPayload → ℤ → Sent
  unfolding transmit
  send_mode_switch b w payload flags = transmit b w (λ seq. encode_mode_switch seq flags payload)

  -- At time `now`; the token defaults to a random number, here always an argument.
  unfoldable pub send_heartbeat : Bridge → W → ℕ → ℤ → ℤ → Sent
  unfolding transmit
  send_heartbeat b w now echo_token flags = transmit b w λ seq.
      encode_heartbeat seq flags
        (record { client_epoch_ms = epoch_ms now; echo_token = echo_token })

  unfoldable pub send_slot_assignment : Bridge → W → SlotAssignmentPayload → ℤ → Sent
  unfolding transmit
  send_slot_assignment b w payload flags =
      transmit b w (λ seq. encode_slot_assignment codec seq flags payload)

  unfoldable pub send_tv_command : Bridge → W → TvCommandRequest → ℤ → Sent
  unfolding transmit
  send_tv_command b w payload flags = transmit b w λ seq. encode_tv_command seq flags (record {
    command_code = payload.command_code;
    target_device = or_zero payload.target_device;
    flags = some (or_zero payload.flags);
  })

  unfoldable pub send_tv_text_input : Bridge → W → Text → ℤ → Sent
  unfolding transmit
  send_tv_text_input b w text flags =
      transmit b w (λ seq. encode_tv_text_input codec seq flags (record { text = text }))

  unfoldable pub send_emergency_reset : Bridge → W → ℕ → Sent
  unfolding send_heartbeat
  send_emergency_reset b w now = send_heartbeat b w now (pos 0) (pos emergency_reset)

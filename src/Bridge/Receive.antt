-- ===== src/Bridge/Receive.antt =====
-- What a frame from the host causes in the bridge.
use lookauniversalremote.Prelude.{
  ℕ, ◌+◌, ◌<◌, ◌≡◌, ◌≢◌, refl, arith, true, ℤ, pos, word8, word16, word32, ◌∷◌, signed32, ◌++◌, map,
  max_ℤ, ◌-ℤ◌,
}
use lookauniversalremote.Protocol.Constants.{HapticMotor, motor_code}
use lookauniversalremote.Protocol.Types.{haptic}
use lookauniversalremote.Protocol.View.{TextCodec}
use lookauniversalremote.Protocol.Encoder.Frames.{frame}
use lookauniversalremote.Protocol.Reader.{array_buffer}
use lookauniversalremote.Protocol.Decoder.RoundTrip.{sent_packet, decode-frame}
use lookauniversalremote.Bridge.{Bridge, epoch_ms}
use lookauniversalremote.Bridge.Send.{message}
use lookauniversalremote.Bridge.Send
use lookauniversalremote.Bridge.Incoming.{
  MotorName, rtt_call, motor_feedback, packet_call, rtt_ms, motor_type, haptic_calls,
  handle_incoming_data, receive,
}

-- The round-trip time of a heartbeat stamped at `sent` and back after `elapsed` milliseconds, less
-- than 2^31, is `elapsed`, although both clock readings are cut to 32 bits and one of them is
-- signed and the other not.
pub rtt_ms-elapsed :
    (sent elapsed : ℕ)
    → elapsed < 2147483648
    → rtt_ms (sent + elapsed) (pos (word32 (epoch_ms sent))) ≡ pos elapsed
unfolding rtt_ms word32 signed32 ◌-ℤ◌ max_ℤ
rtt_ms-elapsed sent elapsed h = ground arith

-- A heartbeat frame that the bridge of another moment sent at time `sent` (any sequence number,
-- flags and token) and that comes back unchanged `elapsed` milliseconds later, less than 2^31, makes
-- a bridge that is not destroyed call every RTT listener, in order, with `elapsed` and the token as
-- sent, and then every packet listener with the packet; and nothing else.
pub receive-heartbeat :
    (codec : TextCodec) (b : Bridge) (seq flags token : ℤ) (sent elapsed : ℕ)
    → b.bound ≡ true
    → elapsed < 2147483648
    → let p = message (Send.Request.heartbeat sent token flags) in
      receive codec b (sent + elapsed) (array_buffer (frame codec seq flags p))
      ≡ map (λ h. rtt_call h (pos elapsed) (pos (word32 token))) b.rtt_handlers
        ++ map (λ h. packet_call h (sent_packet codec seq flags p)) b.packet_handlers
unfolding receive handle_incoming_data
receive-heartbeat codec b seq flags token sent elapsed bound soon =
    rw (bound, decode-frame codec seq flags (message (Send.Request.heartbeat sent token flags)))
      (rw (rtt_ms-elapsed sent elapsed soon))

-- The motor that a protocol constant names.
abbrev pub motor_name : HapticMotor → MotorName
motor_name HapticMotor.left = MotorName.left
motor_name HapticMotor.right = MotorName.right
motor_name HapticMotor.both = MotorName.both

-- The motor that the bridge plays for a constant.
abbrev pub motor_played : HapticMotor → MotorName
motor_played HapticMotor.left = MotorName.both
motor_played HapticMotor.right = MotorName.left
motor_played HapticMotor.both = MotorName.right

motor_type-eq-motor_played :
    (m : HapticMotor) → motor_type (pos (word8 (pos (motor_code m)))) ≡ motor_played m
unfolding motor_type word8
motor_type-eq-motor_played HapticMotor.left = refl
motor_type-eq-motor_played HapticMotor.right = refl
motor_type-eq-motor_played HapticMotor.both = refl

motor_played-other : (m : HapticMotor) → motor_played m ≢ motor_name m
motor_played-other HapticMotor.left e = cc
motor_played-other HapticMotor.right e = cc
motor_played-other HapticMotor.both e = cc

-- A haptic frame of the host with one of the protocol's motor constants, any intensity and a duration
-- that is not 0 modulo 2 ^ 16, makes a bridge that is not destroyed play the frame's intensity and
-- duration once, but on both motors for the constant of the left one, on the left for the right one,
-- and on the right for both: never on the motor that the constant names. Then every packet listener
-- is called with the packet.
pub receive-haptic :
    (codec : TextCodec) (b : Bridge) (seq flags intensity duration : ℤ) (m : HapticMotor) (now : ℕ)
    → b.bound ≡ true
    → 0 < word16 duration
    → let p = haptic (record {
      motor_index = pos (motor_code m);
      intensity = intensity;
      duration_ms = duration;
    }) in
      (receive codec b now (array_buffer (frame codec seq flags p))
        ≡ motor_feedback (motor_played m) (pos (word8 intensity)) (pos (word16 duration))
          ∷ map (λ h. packet_call h (sent_packet codec seq flags p)) b.packet_handlers)
      × (motor_played m ≢ motor_name m)
unfolding receive handle_incoming_data haptic_calls
receive-haptic codec b seq flags intensity duration m now bound long = (
  rw
      (
        bound,
        decode-frame codec seq flags (
            haptic (record {
              motor_index = pos (motor_code m);
              intensity = intensity;
              duration_ms = duration;
            })),
        motor_type-eq-motor_played m,
      )
      (ground arith),
  motor_played-other m,
)

-- ===== src/Tests/Bridge.antt =====
-- The bridge, instantiated.
use lookauniversalremote.Prelude.{
  ℕ, ◌≡◌, ◌≢◌, refl, arith, List, [], ◌∷◌, pos, some, map, word8, word16, word32,
}
use lookauniversalremote.Protocol.Constants.{HapticMotor, motor_code}
use lookauniversalremote.Protocol.Types.{MessagePayload, haptic, Packet}
use lookauniversalremote.Protocol.Encoder.Frames.{frame}
use lookauniversalremote.Protocol.Reader.{array_buffer, Input, ok}
use lookauniversalremote.Protocol.Decoder.{decode_packet}
use lookauniversalremote.Protocol.Decoder.RoundTrip.{sent_packet}
use lookauniversalremote.Bridge.{Bridge}
use lookauniversalremote.Bridge.Send.{Request, message, IsReady}
use lookauniversalremote.Bridge.Send.Stream.{perform_all, decode_all, meant, decode_all-perform_all}
use lookauniversalremote.Bridge.Incoming.{MotorName, receive, rtt_call, motor_feedback, packet_call}
use lookauniversalremote.Bridge.Receive.{
  receive-heartbeat, motor_played, motor_name, receive-haptic,
}
use lookauniversalremote.Tests.Samples.{ascii_codec, move, bridge, bridge-IsReady}

abbrev session : List Request
session = Request.touchpad move (pos 0) ∷ Request.emergency 5 ∷ []

decode_all-perform_all_example :
    (b' : Bridge) × (new : List (List ℕ)) × (perform_all ascii_codec session bridge []
      ≡ some (b', new))
    × (decode_all ascii_codec new ≡ meant ascii_codec 65535 session)
    × IsReady b'
decode_all-perform_all_example = decode_all-perform_all ascii_codec session bridge [] bridge-IsReady

receive-heartbeat_example :
    receive ascii_codec bridge 2147483690 (
      array_buffer (
        frame ascii_codec
          (pos 3)
          (pos 0)
          (message (Request.heartbeat 2147483640 (pos 77) (pos 0)))))
    ≡ rtt_call 9 (pos 50) (pos 77)
      ∷ map
          (λ h. packet_call h (
            sent_packet ascii_codec
              (pos 3)
              (pos 0)
              (message (Request.heartbeat 2147483640 (pos 77) (pos 0)))))
          (7 ∷ 8 ∷ [])
unfolding word32
receive-heartbeat_example =
    receive-heartbeat ascii_codec bridge (pos 3) (pos 0) (pos 77) 2147483640 50 refl (omega arith)

abbrev mute : Input
mute = array_buffer (1 ∷ 6 ∷ 0 ∷ 0 ∷ 0 ∷ 1 ∷ 0 ∷ [])

abbrev mute_packet : Packet
mute_packet = record {
  header = record { version = 1; type = 6; flags = pos 0; sequence = pos 0 };
  payload = MessagePayload.media (record { media_action = pos 1; reserved = some (pos 0) });
}

mute_decodes : decode_packet ascii_codec mute ≡ ok mute_packet
unfolding decode_packet
mute_decodes = refl

-- The host asks for the right motor; the left one is played.
receive-haptic_example :
    let p = haptic (record {
      motor_index = pos (motor_code HapticMotor.right);
      intensity = pos 200;
      duration_ms = pos 50;
    }) in
    (receive ascii_codec bridge 0 (array_buffer (frame ascii_codec (pos 3) (pos 0) p))
      ≡ motor_feedback MotorName.left (pos (word8 (pos 200))) (pos (word16 (pos 50)))
        ∷ map (λ h. packet_call h (sent_packet ascii_codec (pos 3) (pos 0) p)) (7 ∷ 8 ∷ []))
    × (motor_played HapticMotor.right ≢ motor_name HapticMotor.right)
unfolding word16
receive-haptic_example =
    receive-haptic ascii_codec bridge (pos 3) (pos 0) (pos 200) (pos 50) HapticMotor.right 0 refl
      (omega arith)

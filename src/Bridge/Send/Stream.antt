-- ===== src/Bridge/Send/Stream.antt =====
-- What the transport is given over any sequence of send operations.
use lookauniversalremote.Prelude.{
  ℕ, ◌+◌, ◌≡◌, refl, ap, ap₂, ◌∙◌, arith, Bool, true, ℤ, pos, word16, word16-lt, List, [], ◌∷◌,
  ◌++◌, map, length, drop, Option, none, some, length-append, length-drop, take_of_append,
}
use mathlib.Core.List.{append-nil, append_assoc}
use lookauniversalremote.Protocol.View.{TextCodec}
use lookauniversalremote.Protocol.Types.{
  Packet, MotionPayload, ModeSwitchPayload, GamepadFullPayload,
}
use lookauniversalremote.Protocol.Encoder.Frames.{frame}
use lookauniversalremote.Protocol.Encoder.Laws.{payload_layout}
use lookauniversalremote.Protocol.Sequence.{next}
use lookauniversalremote.Protocol.Reader.{Result, ok, array_buffer}
use lookauniversalremote.Protocol.Decoder.{decode_packet}
use lookauniversalremote.Protocol.Decoder.RoundTrip.{sent_packet, decode-frame}
use lookauniversalremote.Bridge.{
  Bridge, transmit, TvCommandRequest, send_tv_command, send_mode_switch, send_gamepad_full,
  send_motion,
}
use lookauniversalremote.Bridge.Send.{
  Request, message, message_flags, IsReady, perform, after, perform-transmit,
}

module _ (codec : TextCodec) {W : Type 0} (send : W → List ℕ → W × Bool) where
  -- The frame that a call sends from the bridge `b`.
  abbrev pub request_frame : Bridge → Request → List ℕ
  request_frame b r = frame codec (pos b.sequence_gen.current) (message_flags r) (message r)

  -- A send operation on a usable bridge does not throw: it hands the transport one frame, that of
  -- the message under the current sequence number, passes on the transport's answer, and counts the
  -- sequence number up by one modulo 65536, whether or not the frame was sent.
  pub perform-frame :
      (r : Request) (b : Bridge) (w : W)
      → IsReady b
      → let answer = send w (request_frame b r) in
        perform codec send r b w ≡ some (after codec send b (request_frame b r), answer.0, answer.1)
  unfolding transmit next
  perform-frame r b w ready =
      perform-transmit codec send r b w
      ∙ rw
          (
            payload_layout codec (pos b.sequence_gen.current) (message_flags r) (message r)
                b.encoder ready.room,
            transmit,
          )
          (rw (take_of_append (request_frame b r) (drop (length (request_frame b r)) b.encoder)))

  -- The same for single operations.
  module _ (b : Bridge) (w : W) (ready : IsReady b) where
    pub send_tv_command-frame :
        (r : TvCommandRequest) (f : ℤ)
        → let bytes = request_frame b (Request.tv_command r f) in
          send_tv_command codec send b w r f
          ≡ some (after codec send b bytes, (send w bytes).0, (send w bytes).1)
    unfolding perform
    send_tv_command-frame r f = perform-frame (Request.tv_command r f) b w ready

    pub send_mode_switch-frame :
        (p : ModeSwitchPayload) (f : ℤ)
        → let bytes = request_frame b (Request.mode_switch p f) in
          send_mode_switch codec send b w p f
          ≡ some (after codec send b bytes, (send w bytes).0, (send w bytes).1)
    unfolding perform
    send_mode_switch-frame p f = perform-frame (Request.mode_switch p f) b w ready

    pub send_motion-frame :
        (p : MotionPayload) (f : ℤ)
        → let bytes = request_frame b (Request.motion p f) in
          send_motion codec send b w p f
          ≡ some (after codec send b bytes, (send w bytes).0, (send w bytes).1)
    unfolding perform
    send_motion-frame p f = perform-frame (Request.motion p f) b w ready

    pub send_gamepad_full-frame :
        (p : GamepadFullPayload) (f : ℤ)
        → let bytes = request_frame b (Request.gamepad_full p f) in
          send_gamepad_full codec send b w p f
          ≡ some (after codec send b bytes, (send w bytes).0, (send w bytes).1)
    unfolding perform
    send_gamepad_full-frame p f = perform-frame (Request.gamepad_full p f) b w ready

  pub after-IsReady : (b : Bridge) (bytes : List ℕ) → IsReady b → IsReady (after codec send b bytes)
  after-IsReady b bytes ready = record {
    room = omega (
      arith,
      length-append bytes (drop (length bytes) b.encoder),
      length-drop (length bytes) b.encoder,
      ready.room,
    );
    counter = word16-lt (pos (b.sequence_gen.current + 1));
  }

-- A transport that takes every frame and keeps them in order.
abbrev pub keep : List (List ℕ) → List ℕ → List (List ℕ) × Bool
keep frames bytes = (frames ++ bytes ∷ [], true)

module _ (codec : TextCodec) where
  -- A sequence of calls, with what the transport has been given at the end.
  pub perform_all : List Request → Bridge → List (List ℕ) → Option (Bridge × List (List ℕ))
  perform_all [] b frames = some (b, frames)
  perform_all (r ∷ rs) b frames = elim (perform codec keep r b frames) [
    | none ↦ none
    | some (b', frames', sent) ↦ perform_all rs b' frames'
  ]

  -- The packets that the calls mean, with consecutive sequence numbers from `seq` on.
  abbrev pub meant : ℕ → List Request → List (Result Packet)
  meant seq [] = []
  meant seq (r ∷ rs) =
      ok (sent_packet codec (pos seq) (message_flags r) (message r))
      ∷ meant (word16 (pos (seq + 1))) rs

  abbrev pub decode_all : List (List ℕ) → List (Result Packet)
  decode_all frames = map (λ bytes. decode_packet codec (array_buffer bytes)) frames

  -- Over any sequence of send operations, a usable bridge stays usable and hands the transport one
  -- frame for each call, in order; and these frames decode to the messages of the calls, under
  -- sequence numbers that count up from the bridge's current one modulo 65536.
  pub decode_all-perform_all :
      (rs : List Request) (b : Bridge) (frames : List (List ℕ))
      → IsReady b
      → (b' : Bridge) × (new : List (List ℕ)) × (perform_all rs b frames ≡ some (b', frames ++ new))
        × (decode_all new ≡ meant b.sequence_gen.current rs)
        × IsReady b'
  unfolding perform_all
  decode_all-perform_all [] b frames ready = (b, [], rw append-nil, refl, ready)
  decode_all-perform_all (r ∷ rs) b frames ready =
      let bytes = request_frame codec keep b r in
      let (b', new, run, decoded, ready') =
        decode_all-perform_all rs (after codec keep b bytes) (frames ++ bytes ∷ [])
          (after-IsReady codec keep b bytes ready) in
      (
        b',
        bytes ∷ new,
        rw (perform-frame codec keep r b frames ready, perform_all)
            (run ∙ ap (λ t. some (b', t)) (append_assoc frames (bytes ∷ []) new)),
        ap₂ ◌∷◌ (decode-frame codec (pos b.sequence_gen.current) (message_flags r) (message r))
            decoded,
        ready',
      )

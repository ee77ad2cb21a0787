-- ===== src/Motion/Sampling.antt =====
-- What the motion sampler sends, and its timer.
use lookauniversalremote.Prelude.{
  ℕ, suc, ◌+◌, ◌%◌, ◌≡◌, refl, arith, true, false, ℤ, pos, negsuc, max_ℤ, min_ℤ, word32, signed32,
  IsI16, word16-IsI16, List, [], ◌∷◌, ◌++◌, none, some,
}
use lookauniversalremote.Protocol.Types.{motion, Packet}
use lookauniversalremote.Protocol.View.{TextCodec}
use lookauniversalremote.Protocol.Reader.{ok, array_buffer}
use lookauniversalremote.Protocol.Decoder.{decode_packet}
use lookauniversalremote.Protocol.Decoder.RoundTrip.{as_sent, sent_packet, decode-frame}
use lookauniversalremote.Bridge.{Bridge}
use lookauniversalremote.Bridge.Send.{Request, IsReady, after}
use lookauniversalremote.Bridge.Send.Stream.{request_frame, send_motion-frame, keep}
use lookauniversalremote.Motion.{
  Floats, Whole, finite, infinity, minus_infinity, nan, min_whole, max_whole, to_integer,
}
use lookauniversalremote.Motion.Pipeline.{timestamp}
use lookauniversalremote.Motion.Filters.{FilteredMotion}
use lookauniversalremote.Motion.Sampler.{
  MotionSampler, start_sampling, stop_sampling, set_sampling_rate, clear_interval, quantize,
  sample_and_send,
}

-- A rounded number between the bounds is one of 16 bits, whatever it was; NaN is 0.
clamped-IsI16 :
    (w : Whole) → IsI16 (to_integer (max_whole (negsuc 32767) (min_whole (pos 32767) w)))
unfolding max_ℤ min_ℤ
clamped-IsI16 (finite (pos n)) = ground arith
clamped-IsI16 (finite (negsuc n)) = ground arith
clamped-IsI16 infinity = ground arith
clamped-IsI16 minus_infinity = ground arith
clamped-IsI16 nan = ground arith

-- On the wire a timestamp is the microsecond modulo 2 ^ 32.
pub word32-timestamp : (micros : ℕ) → word32 (timestamp micros) ≡ micros % 4294967296
unfolding timestamp word32 signed32
word32-timestamp micros = ground arith

module _ {D : Type 0} (n : Floats D) where
  quantize-as_sent :
      (codec : TextCodec) (micros : ℕ) (m : FilteredMotion D)
      → let p = quantize n micros m in
        as_sent codec (motion p) ≡ motion (record p { timestamp_us = pos (word32 p.timestamp_us) })
  unfolding quantize
  quantize-as_sent codec micros m =
      let kept = λ (v : D). word16-IsI16 _ (clamped-IsI16 (n.round v)) in
      let rate = n.decimal (pos 1000) 0 in
      let force = n.decimal (pos 100) 0 in
      rw
        (
          kept (n.mul m.aim_yaw rate),
          kept (n.mul m.aim_pitch rate),
          kept (n.mul m.aim_roll rate),
          kept (n.mul m.accel_x force),
          kept (n.mul m.accel_y force),
          kept (n.mul m.accel_z force),
        )
        refl

  -- Over a usable bridge every motion is sent as one frame, however large or undefined its rates
  -- are, and counted. The frame decodes to the rounded and clamped rates, with no further loss, and
  -- to the timestamp modulo 2 ^ 32.
  pub sample_and_send-decode :
      (codec : TextCodec) (micros : ℕ) (m : FilteredMotion D) (s : MotionSampler D) (b : Bridge)
      (frames : List (List ℕ))
      → IsReady b
      → let p = quantize n micros m in
        (b' : Bridge) × (bytes : List ℕ) × (packet : Packet) × (sample_and_send n codec keep micros
            (some m)
            s
            b
            frames
          ≡ some (record s { packet_count = s.packet_count + 1 }, b', frames ++ bytes ∷ [], true))
        × (decode_packet codec (array_buffer bytes) ≡ ok packet)
        × (packet.payload ≡ motion (record p { timestamp_us = pos (word32 p.timestamp_us) }))
  unfolding sample_and_send
  sample_and_send-decode codec micros m s b frames ready =
      let r = Request.motion (quantize n micros m) (pos 0) in
      (
        after codec keep b (request_frame codec keep b r),
        request_frame codec keep b r,
        sent_packet codec (pos b.sequence_gen.current) (pos 0) (motion (quantize n micros m)),
        rw
            (
              send_motion-frame codec keep b frames ready (quantize n micros m) (pos 0),
              sample_and_send,
            )
            refl,
        decode-frame codec (pos b.sequence_gen.current) (pos 0) (motion (quantize n micros m)),
        quantize-as_sent codec micros m,
      )

-- The calls that change the timer.
pub data Control : Type 0 where
  start_it stop_it : Control
  set_rate : ℤ → Control

-- A stopped sampler has no interval; a running one has exactly one, whose id it holds and whose
-- period is the one of the sampler.
pub data HasOneTimer {D : Type 0} : MotionSampler D → Type 0 where
  idle :
      (rate : ℤ) (period : D) (count next : ℕ)
      → HasOneTimer (record {
        timer_id = none;
        is_sampling = false;
        sample_rate_hz = rate;
        interval_ms = period;
        packet_count = count;
        intervals = [];
        next_id = next;
      })
  ticking :
      (t : ℕ) (rate : ℤ) (period : D) (count next : ℕ)
      → HasOneTimer (record {
        timer_id = some t;
        is_sampling = true;
        sample_rate_hz = rate;
        interval_ms = period;
        packet_count = count;
        intervals = record { id = t; period = period } ∷ [];
        next_id = next;
      })

cleared :
    {D : Type 0} (t : ℕ) (p : D) → clear_interval (some t) (record { id = t; period = p } ∷ []) ≡ []
cleared t p = ground arith

module _ {D : Type 0} (n : Floats D) where
  abbrev pub control : Control → MotionSampler D → MotionSampler D
  control start_it s = start_sampling s
  control stop_it s = stop_sampling s
  control (set_rate hz) s = set_sampling_rate n hz s

  abbrev pub control_all : List Control → MotionSampler D → MotionSampler D
  control_all [] s = s
  control_all (c ∷ cs) s = control_all cs (control c s)

  control-HasOneTimer :
      (c : Control) (s : MotionSampler D) → HasOneTimer s → HasOneTimer (control c s)
  unfolding start_sampling stop_sampling set_sampling_rate
  control-HasOneTimer start_it s (idle rate p count k) = ticking k rate p count (suc k)
  control-HasOneTimer start_it s (ticking t rate p count k) = ticking t rate p count k
  control-HasOneTimer stop_it s (idle rate p count k) = idle rate p count k
  control-HasOneTimer stop_it s (ticking t rate p count k) = rw (cleared t p) (idle rate p count k)
  control-HasOneTimer (set_rate hz) s (idle rate p count k) = idle _ _ count k
  control-HasOneTimer (set_rate hz) s (ticking t rate p count k) =
      rw (cleared t p) (ticking k _ _ count (suc k))

  -- After any calls of start, stop and setSampleRate, in any order, a stopped sampler has no
  -- interval and a running one exactly one, whose id it holds and whose period is the present one.
  pub control_all-HasOneTimer :
      (cs : List Control) (s : MotionSampler D) → HasOneTimer s → HasOneTimer (control_all cs s)
  control_all-HasOneTimer [] s one = one
  control_all-HasOneTimer (c ∷ cs) s one =
      control_all-HasOneTimer cs (control c s) (control-HasOneTimer c s one)

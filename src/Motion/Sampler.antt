-- ===== src/Motion/Sampler.antt =====
-- MotionSampler.ts: the timer that reads the motion and sends it.
use lookauniversalremote.Prelude.{
  ℕ, zero, suc, ◌+◌, ◌==◌, if◌then◌else◌, Bool, true, false, ℤ, pos, negsuc, max_ℤ, List, [], ◌∷◌,
  ◌++◌, Option, none, some,
}
use lookauniversalremote.Protocol.Types.{MotionPayload}
use lookauniversalremote.Protocol.View.{TextCodec}
use lookauniversalremote.Bridge.{Bridge, send_motion}
use lookauniversalremote.Motion.{Floats, Whole, min_whole, max_whole, to_integer}
use lookauniversalremote.Motion.Pipeline.{timestamp}
use lookauniversalremote.Motion.Filters.{FilteredMotion}

-- An interval of the browser: its id and its period in milliseconds.
pub record Interval (D : Type 0) : Type 0 where
  pub id : ℕ
  pub period : D

-- The sampler, with the active intervals of the browser and the id of the next one.
pub record MotionSampler (D : Type 0) : Type 0 where
  pub timer_id : Option ℕ
  pub is_sampling : Bool
  pub sample_rate_hz : ℤ
  pub interval_ms : D
  pub packet_count : ℕ
  pub intervals : List (Interval D)
  pub next_id : ℕ

module _ {D : Type 0} where
  unfoldable pub start_sampling : MotionSampler D → MotionSampler D
  start_sampling s = if s.is_sampling then s else record s {
    is_sampling = true;
    timer_id = some s.next_id;
    intervals = s.intervals ++ record { id = s.next_id; period = s.interval_ms } ∷ [];
    next_id = suc s.next_id;
  }

  abbrev pub clear_interval : Option ℕ → List (Interval D) → List (Interval D)
  clear_interval none is = is
  clear_interval (some t) [] = []
  clear_interval (some t) (i ∷ is) = if i.id == t then is else i ∷ clear_interval (some t) is

  unfoldable pub stop_sampling : MotionSampler D → MotionSampler D
  stop_sampling s =
      if s.is_sampling
      then record s {
        is_sampling = false;
        intervals = clear_interval s.timer_id s.intervals;
        timer_id = none;
      }
      else s

module _ {D : Type 0} (n : Floats D) where
  -- `1000 / Math.max(1, hz)`.
  abbrev pub period_of : ℤ → D
  period_of hz = n.div (n.decimal (pos 1000) 0) (n.decimal (max_ℤ (pos 1) hz) 0)

  unfoldable pub new_sampler : ℤ → MotionSampler D
  new_sampler hz = record {
    timer_id = none;
    is_sampling = false;
    sample_rate_hz = hz;
    interval_ms = period_of hz;
    packet_count = 0;
    intervals = [];
    next_id = 1;
  }

  unfoldable pub set_sampling_rate : ℤ → MotionSampler D → MotionSampler D
  unfolding start_sampling stop_sampling
  set_sampling_rate hz s =
      let t = record s { sample_rate_hz = max_ℤ (pos 1) hz; interval_ms = period_of hz } in
      if t.is_sampling then start_sampling (stop_sampling t) else t

  -- `Math.round(val)` between the bounds of a signed 16-bit number.
  abbrev pub clamp_i16 : D → Whole
  clamp_i16 val = max_whole (negsuc 32767) (min_whole (pos 32767) (n.round val))

  -- `motion.timestampUs || ...`, at the microsecond `micros`.
  abbrev pub stamp : ℤ → ℕ → ℤ
  stamp (pos zero) micros = timestamp micros
  stamp (pos (suc t)) micros = pos (suc t)
  stamp (negsuc t) micros = negsuc t

  unfoldable pub quantize : ℕ → FilteredMotion D → MotionPayload
  quantize micros m =
      let rate = λ (v : D). to_integer (clamp_i16 (n.mul v (n.decimal (pos 1000) 0))) in
      let force = λ (v : D). to_integer (clamp_i16 (n.mul v (n.decimal (pos 100) 0))) in
      record {
        gyro_yaw = rate m.aim_yaw;
        gyro_pitch = rate m.aim_pitch;
        gyro_roll = rate m.aim_roll;
        accel_x = force m.accel_x;
        accel_y = force m.accel_y;
        accel_z = force m.accel_z;
        timestamp_us = stamp m.timestamp_us micros;
      }

  module _ (codec : TextCodec) {W : Type 0} (send : W → List ℕ → W × Bool) where
    -- With what the provider returns. `none` is an error of the encoder.
    unfoldable pub sample_and_send :
        ℕ
        → Option (FilteredMotion D)
        → MotionSampler D
        → Bridge
        → W
        → Option (MotionSampler D × Bridge × W × Bool)
    unfolding quantize send_motion
    sample_and_send micros none s b w = some (s, b, w, false)
    sample_and_send micros (some m) s b w =
        elim (send_motion codec send b w (quantize micros m) (pos 0)) [
          | none ↦ none
          | some (b', w', sent) ↦
              some
                ((if sent then record s { packet_count = s.packet_count + 1 } else s), b', w', sent)
        ]

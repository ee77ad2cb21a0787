-- ===== src/Tests/Motion.antt =====
-- The motion sensors, instantiated with integers for floats.
use lookauniversalremote.Prelude.{
  ℕ, ◌+◌, ◌≡◌, refl, arith, true, false, ℤ, pos, negsuc, ◌+ℤ◌, ◌-ℤ◌, min_ℤ, max_ℤ, leb_ℤ, not,
  word32, List, [], ◌∷◌, ◌++◌, replicate, Option, none, some,
}
use lookauniversalremote.Protocol.Types.{motion, Packet}
use lookauniversalremote.Protocol.Reader.{ok, array_buffer}
use lookauniversalremote.Protocol.Decoder.{decode_packet}
use lookauniversalremote.Bridge.{Bridge}
use lookauniversalremote.Bridge.Send.Stream.{keep}
use lookauniversalremote.Motion.{Floats, finite, ImuRawSample, ImuSensorPipeline, free}
use lookauniversalremote.Motion.Pipeline.{
  new_pipeline, check_initial_status, set_status, DeviceMotionEvent, grants,
}
use lookauniversalremote.Motion.Filters.{FilteredMotion}
use lookauniversalremote.Motion.Bias.{
  GyroBias, BiasJson, BiasStorage, BiasCalibrator, new_calibrator, load_from_storage,
}
use lookauniversalremote.Motion.Calibrator.{start_calibration}
use lookauniversalremote.Motion.Controller.{PartialConfig}
use lookauniversalremote.Motion.Sampler.{new_sampler, quantize, sample_and_send}
use lookauniversalremote.Motion.Listeners.{count_kind}
use lookauniversalremote.Motion.Tied.{IsTied}
use lookauniversalremote.Motion.Soundness.{Action}
use lookauniversalremote.Motion.Calibrating.{IsOver, accumulate_all, verdict, calibration-IsOver}
use lookauniversalremote.Motion.Sampling.{sample_and_send-decode}
use lookauniversalremote.Tests.Samples.{ascii_codec, bridge, bridge-IsReady}

-- A product keeps its left factor, a quotient and a root are not taken.
abbrev pub integers : Floats ℤ
integers = record {
  decimal = λ m k. m;
  pi = pos 3;
  add = λ a b. a +ℤ b;
  sub = λ a b. a -ℤ b;
  mul = λ a b. a;
  div = λ a b. a;
  square = λ a. a;
  sqrt = λ a. a;
  hypot = λ a b. max_ℤ a b;
  min_of = min_ℤ;
  max_of = max_ℤ;
  less = λ a b. not (leb_ℤ b a);
  less_eq = λ a b. leb_ℤ a b;
  equal = λ a b. false;
  round = λ a. finite a;
}

-- Texts that are the biases themselves, with an empty one.
abbrev plain_json : BiasJson ℤ (Option (GyroBias ℤ))
plain_json = record {
  stringify = some;
  parse = λ t. elim t [
    | none ↦ none
    | some b ↦ some (some b.bias_yaw, some b.bias_pitch, some b.bias_roll)
  ];
  is_blank = λ t. elim t [ none ↦ true | some b ↦ false ];
  IsFinite = λ v. Unit;
  parse_stringify = λ b yaw pitch roll. refl;
  nonempty = λ b. refl;
}

abbrev storage : BiasStorage (Option (GyroBias ℤ))
storage = record { available = true; has_room = true; gyro_bias = none }

abbrev calibrator : BiasCalibrator ℤ (Option (GyroBias ℤ))
calibrator = new_calibrator integers plain_json storage

abbrev pipeline : ImuSensorPipeline ℤ
pipeline = new_pipeline free true

abbrev no_config : PartialConfig ℤ
no_config = record { aim_mode = none; lt_threshold = none; filter_options = none }

pipeline-IsTied : IsTied calibrator pipeline none
unfolding new_calibrator load_from_storage new_pipeline check_initial_status set_status
pipeline-IsTied = record {
  attached = record { attached = refl; running = λ e. absurd cc; window = λ e. absurd cc };
  distinct = record { once = λ i. omega arith; below = λ i h. refl };
  accumulating = refl;
  keeping = refl;
  promises = record {
    same = refl;
    known = λ q e. absurd cc;
    last = λ q e. absurd cc;
    answered = λ q lt. absurd (omega arith);
    active = λ e. absurd cc;
  };
}

abbrev turn : DeviceMotionEvent ℤ
turn = record {
  rotation_rate = some (record { first = some (pos 90); second = none; third = some (negsuc 9) });
  acceleration = none;
  acceleration_including_gravity = none;
}

-- A calibration that is cancelled by another, with the aim on, off and on.
abbrev session : List (Action ℤ)
session =
    Action.ask grants
    ∷ Action.start_aim
    ∷ Action.calibrate 3 (some 7)
    ∷ Action.motion 1000 turn
    ∷ Action.listen 4
    ∷ Action.calibrate 40 none
    ∷ Action.motion 9000 turn
    ∷ Action.stop_aim
    ∷ Action.start_aim
    ∷ Action.read_motion
    ∷ []

abbrev resting : ImuRawSample ℤ
resting = record {
  gyro_yaw = pos 0;
  gyro_pitch = pos 0;
  gyro_roll = pos 0;
  accel_x = pos 0;
  accel_y = pos 0;
  accel_z = pos 981;
  timestamp_us = pos 5;
}

calibration-IsOver_example :
    let r = start_calibration 5 none calibrator pipeline in
    let ended = accumulate_all integers plain_json (replicate 20 resting) r.0 r.1 in
    IsOver integers plain_json ended.0 r.2 calibrator.bias (verdict integers (replicate 20 resting))
    × (count_kind 0 ended.1.listeners ≡ 0)
calibration-IsOver_example =
    calibration-IsOver integers plain_json 5 none calibrator pipeline none (replicate 20 resting)
      pipeline-IsTied refl

abbrev fast_turn : FilteredMotion ℤ
fast_turn = record {
  aim_yaw = pos 90000;
  aim_pitch = negsuc 12;
  aim_roll = pos 0;
  accel_x = pos 1;
  accel_y = pos 2;
  accel_z = pos 981;
  timestamp_us = negsuc 7;
}

sample_and_send-decode_example :
    let p = quantize integers 12 fast_turn in
    let s = new_sampler integers (pos 120) in
    (b' : Bridge) × (bytes : List ℕ) × (packet : Packet) × (sample_and_send integers ascii_codec
        keep 12
        (some fast_turn)
        s
        bridge
        []
      ≡ some (record s { packet_count = s.packet_count + 1 }, b', [] ++ bytes ∷ [], true))
    × (decode_packet ascii_codec (array_buffer bytes) ≡ ok packet)
    × (packet.payload ≡ motion (record p { timestamp_us = pos (word32 p.timestamp_us) }))
sample_and_send-decode_example =
    sample_and_send-decode integers ascii_codec 12 fast_turn (new_sampler integers (pos 120)) bridge
      [] bridge-IsReady

abbrev drift : GyroBias ℤ
drift = record { bias_yaw = pos 3; bias_pitch = negsuc 0; bias_roll = pos 0 }

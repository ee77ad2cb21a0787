-- ===== src/Motion/Bias.antt =====
-- BiasCalibrator.ts: the state, and the bias, kept in the browser's storage.
use lookauniversalremote.Prelude.{
  ℕ, ◌≡◌, if◌then◌else◌, Bool, true, false, pos, List, [], Option, none, some,
}
use lookauniversalremote.Motion.{Floats, Whole, ImuRawSample}

pub record GyroBias (D : Type 0) : Type 0 where
  pub bias_yaw : D
  pub bias_pitch : D
  pub bias_roll : D

pub record Variance (D : Type 0) : Type 0 where
  pub yaw : D
  pub pitch : D
  pub roll : D

pub record CalibrationResult (D : Type 0) : Type 0 where
  pub bias : GyroBias D
  pub variance : Variance D
  pub sample_count : ℕ

pub data CalibrationStatus : Type 0 where
  idle calibrating calibrated failed : CalibrationStatus

-- `this.status === 'calibrating'`.
abbrev pub is_calibrating : CalibrationStatus → Bool
is_calibrating idle = false
is_calibrating calibrating = true
is_calibrating calibrated = false
is_calibrating failed = false

-- How a promise of `startCalibration` settles; the last carries the variance of its message.
pub data Settlement (D : Type 0) : Type 0 where
  resolved : CalibrationResult D → Settlement D
  cancelled no_samples : Settlement D
  moved : D → Settlement D

-- JSON of the platform on biases, with texts of the type `R`: `parse` gives the three properties,
-- where they are numbers, or `none` where reading them throws. A bias of finite numbers comes back
-- from its text, which is not empty.
pub record BiasJson (D R : Type 0) : Type 1 where
  pub stringify : GyroBias D → R
  pub parse : R → Option (Option D × Option D × Option D)
  pub is_blank : R → Bool
  pub IsFinite : D → Type 0
  pub parse_stringify :
      (b : GyroBias D)
      → IsFinite b.bias_yaw
      → IsFinite b.bias_pitch
      → IsFinite b.bias_roll
      → parse (stringify b) ≡ some (some b.bias_yaw, some b.bias_pitch, some b.bias_roll)
  pub nonempty : (b : GyroBias D) → is_blank (stringify b) ≡ false

-- `localStorage`, whether there is one and whether `setItem` returns, with the text under the key.
pub record BiasStorage (R : Type 0) : Type 0 where
  pub available : Bool
  pub has_room : Bool
  pub gyro_bias : Option R

-- The calibrator, with its storage, its promises, named by numbers, those that are settled, and the
-- calls of progress callbacks. `resolve` and `reject` hold the promise they settle.
pub record BiasCalibrator (D R : Type 0) : Type 0 where
  pub bias : GyroBias D
  pub status : CalibrationStatus
  pub calibrated : Bool
  pub samples : List (ImuRawSample D)
  pub target_samples : ℕ
  pub progress_callback : Option ℕ
  pub unbind_pipeline : Option ℕ
  pub resolve_calibration : Option ℕ
  pub reject_calibration : Option ℕ
  pub next_promise : ℕ
  pub settled : List (ℕ × Settlement D)
  pub progress_calls : List (ℕ × Whole × D)
  pub storage : BiasStorage R

module _ {D R : Type 0} where
  -- `this.bias = parsed`, when all three are numbers.
  abbrev pub with_stored :
      Option (Option D × Option D × Option D) → BiasCalibrator D R → BiasCalibrator D R
  with_stored (some (some yaw, some pitch, some roll)) c = record c {
    bias = record { bias_yaw = yaw; bias_pitch = pitch; bias_roll = roll };
    calibrated = true;
    status = calibrated;
  }
  with_stored _ c = c

module _ {D : Type 0} (n : Floats D) where
  abbrev pub zero_bias : GyroBias D
  zero_bias =
      let nought = n.decimal (pos 0) 0 in
      record { bias_yaw = nought; bias_pitch = nought; bias_roll = nought }

module _ {D R : Type 0} (n : Floats D) where
  unfoldable pub clear_bias : BiasCalibrator D R → BiasCalibrator D R
  clear_bias c = record c {
    bias = zero_bias n;
    calibrated = false;
    status = idle;
    storage = if c.storage.available then record c.storage { gyro_bias = none } else c.storage;
  }

  unfoldable pub apply_bias : BiasCalibrator D R → ImuRawSample D → ImuRawSample D
  apply_bias c s = record s {
    gyro_yaw = n.sub s.gyro_yaw c.bias.bias_yaw;
    gyro_pitch = n.sub s.gyro_pitch c.bias.bias_pitch;
    gyro_roll = n.sub s.gyro_roll c.bias.bias_roll;
  }

module _ {D R : Type 0} (json : BiasJson D R) where
  unfoldable pub save_to_storage : BiasCalibrator D R → BiasCalibrator D R
  save_to_storage c =
      if c.storage.available
      then (if c.storage.has_room
          then record c { storage = record c.storage { gyro_bias = some (json.stringify c.bias) } }
          else c)
      else c

  unfoldable pub load_from_storage : BiasCalibrator D R → BiasCalibrator D R
  load_from_storage c =
      if c.storage.available
      then elim c.storage.gyro_bias [
        | none ↦ c
        | some stored ↦ if json.is_blank stored then c else with_stored (json.parse stored) c
      ]
      else c

  unfoldable pub set_bias : GyroBias D → BiasCalibrator D R → BiasCalibrator D R
  unfolding save_to_storage
  set_bias new c = save_to_storage (record c { bias = new; calibrated = true; status = calibrated })

module _ {D R : Type 0} (n : Floats D) (json : BiasJson D R) where
  unfoldable pub new_calibrator : BiasStorage R → BiasCalibrator D R
  unfolding load_from_storage
  new_calibrator storage = load_from_storage json (record {
    bias = zero_bias n;
    status = idle;
    calibrated = false;
    samples = [];
    target_samples = 120;
    progress_callback = none;
    unbind_pipeline = none;
    resolve_calibration = none;
    reject_calibration = none;
    next_promise = 0;
    settled = [];
    progress_calls = [];
    storage = storage;
  })

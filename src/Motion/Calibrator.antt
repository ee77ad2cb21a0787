-- ===== src/Motion/Calibrator.antt =====
-- BiasCalibrator.ts: the calibration. The calibrator is always given the same
-- pipeline, which each operation that reaches it takes and returns.
use lookauniversalremote.Prelude.{
  ℕ, suc, ◌==◌, leb, max, if◌then◌else◌, Bool, true, false, not, pos, List, [], ◌∷◌, ◌++◌, length,
  Option, none, some,
}
use lookauniversalremote.Motion.{
  Floats, Whole, min_whole, ImuRawSample, accumulates, ImuSensorPipeline,
}
use lookauniversalremote.Motion.Pipeline.{start, on_sample, off_sample}
use lookauniversalremote.Motion.Bias.{
  GyroBias, Variance, CalibrationResult, idle, calibrating, calibrated, failed, is_calibrating,
  Settlement, resolved, cancelled, no_samples, moved, BiasJson, BiasCalibrator, save_to_storage,
}

module _ {D : Type 0} where
  -- Whether a promise is settled; settling it a second time does nothing.
  abbrev pub is_settled : ℕ → List (ℕ × Settlement D) → Bool
  is_settled p [] = false
  is_settled p (s ∷ ss) = if s.0 == p then true else is_settled p ss

  -- `this.resolveCalibration?.(...)` and `this.rejectCalibration?.(...)`.
  abbrev pub settle : Option ℕ → Settlement D → List (ℕ × Settlement D) → List (ℕ × Settlement D)
  settle none s ss = ss
  settle (some p) s ss = if is_settled p ss then ss else ss ++ (p, s) ∷ []

  abbrev pub unbind : Option ℕ → ImuSensorPipeline D → ImuSensorPipeline D
  unfolding off_sample
  unbind none p = p
  unbind (some l) p = off_sample l p

  -- The calls after one of the progress callback, if there is one.
  abbrev pub report_progress : Option ℕ → Whole → D → List (ℕ × Whole × D) → List (ℕ × Whole × D)
  report_progress none pct noise called = called
  report_progress (some f) pct noise called = called ++ (f, pct, noise) ∷ []

module _ {D R : Type 0} where
  unfoldable pub cancel_calibration :
      BiasCalibrator D R → ImuSensorPipeline D → BiasCalibrator D R × ImuSensorPipeline D
  cancel_calibration c p = (
    record c {
      unbind_pipeline = none;
      settled = settle c.reject_calibration cancelled c.settled;
      reject_calibration = none;
      resolve_calibration = elim c.reject_calibration [
        | none ↦ c.resolve_calibration
        | some q ↦ none
      ];
      samples = [];
      progress_callback = none;
      status =
          if is_calibrating c.status then (if c.calibrated then calibrated else idle) else c.status;
    },
    unbind c.unbind_pipeline p,
  )

  -- With the promise that it returns.
  unfoldable pub start_calibration :
      ℕ
      → Option ℕ
      → BiasCalibrator D R
      → ImuSensorPipeline D
      → BiasCalibrator D R × ImuSensorPipeline D × ℕ
  unfolding cancel_calibration start on_sample
  start_calibration sample_count on_progress c p =
      let (c', p') = cancel_calibration c p in
      let (q, l) = on_sample accumulates (start p').0 in
      (
        record c' {
          samples = [];
          target_samples = max 20 sample_count;
          progress_callback = on_progress;
          status = calibrating;
          resolve_calibration = some c.next_promise;
          reject_calibration = some c.next_promise;
          next_promise = suc c.next_promise;
          unbind_pipeline = some l;
        },
        q,
        c.next_promise,
      )

module _ {D : Type 0} (n : Floats D) where
  -- The loop `for (const s of samples) sum += f(s)`, from `acc`.
  abbrev pub sum_of : (ImuRawSample D → D) → D → List (ImuRawSample D) → D
  sum_of f acc [] = acc
  sum_of f acc (s ∷ ss) = sum_of f (n.add acc (f s)) ss

  abbrev pub mean_of : (ImuRawSample D → D) → List (ImuRawSample D) → D
  mean_of f ss = n.div (sum_of f (n.decimal (pos 0) 0) ss) (n.decimal (pos (length ss)) 0)

  abbrev pub variance_of : (ImuRawSample D → D) → List (ImuRawSample D) → D
  variance_of f ss =
      let mean = mean_of f ss in
      n.div (sum_of (λ s. n.square (n.sub (f s) mean)) (n.decimal (pos 0) 0) ss)
        (n.decimal (pos (length ss)) 0)

  -- The bias and the result of the samples, and the variance that decides.
  abbrev pub mean_bias : List (ImuRawSample D) → GyroBias D
  mean_bias ss = record {
    bias_yaw = mean_of (λ s. s.gyro_yaw) ss;
    bias_pitch = mean_of (λ s. s.gyro_pitch) ss;
    bias_roll = mean_of (λ s. s.gyro_roll) ss;
  }

  abbrev pub variances : List (ImuRawSample D) → Variance D
  variances ss = record {
    yaw = variance_of (λ s. s.gyro_yaw) ss;
    pitch = variance_of (λ s. s.gyro_pitch) ss;
    roll = variance_of (λ s. s.gyro_roll) ss;
  }

  abbrev pub max_variance_of : List (ImuRawSample D) → D
  max_variance_of ss =
      let variance = variances ss in n.max_of (n.max_of variance.yaw variance.pitch) variance.roll

  abbrev pub result_of : List (ImuRawSample D) → CalibrationResult D
  result_of ss = record { bias = mean_bias ss; variance = variances ss; sample_count = length ss }

  abbrev pub progress_pct : ℕ → ℕ → Whole
  progress_pct count target = min_whole (pos 100) (
      n.round (
        n.mul (n.div (n.decimal (pos count) 0) (n.decimal (pos target) 0)) (n.decimal (pos 100) 0)))

  abbrev pub noise_of : ImuRawSample D → D
  noise_of s = n.sqrt (
      n.add (n.add (n.mul s.gyro_yaw s.gyro_yaw) (n.mul s.gyro_pitch s.gyro_pitch))
        (n.mul s.gyro_roll s.gyro_roll))

module _ {D R : Type 0} (n : Floats D) (json : BiasJson D R) where
  unfoldable pub finish_calibration :
      BiasCalibrator D R → ImuSensorPipeline D → BiasCalibrator D R × ImuSensorPipeline D
  unfolding save_to_storage
  finish_calibration c p =
      let c' = record c { unbind_pipeline = none } in
      let p' = unbind c.unbind_pipeline p in
      if length c.samples == 0
      then (
        record c' { status = failed; settled = settle c.reject_calibration no_samples c.settled },
        p',
      )
      else if n.less (n.decimal (pos 5) 3) (max_variance_of n c.samples)
      then (
        record c' {
          status = failed;
          settled = settle c.reject_calibration (moved (max_variance_of n c.samples)) c.settled;
        },
        p',
      )
      else (
        record (save_to_storage json
            (record c' { bias = mean_bias n c.samples; calibrated = true; status = calibrated })) {
              settled = settle c.resolve_calibration (resolved (result_of n c.samples)) c.settled;
              resolve_calibration = none;
              reject_calibration = none;
            },
        p',
      )

  unfoldable pub accumulate_sample :
      ImuRawSample D
      → BiasCalibrator D R
      → ImuSensorPipeline D
      → BiasCalibrator D R × ImuSensorPipeline D
  unfolding finish_calibration
  accumulate_sample s c p =
      if not (is_calibrating c.status)
      then (c, p)
      else (let samples = c.samples ++ s ∷ [] in
          let c' = record c {
            samples = samples;
            progress_calls =
                report_progress c.progress_callback
                  (progress_pct n (length samples) c.target_samples) (noise_of n s)
                  c.progress_calls;
          } in
          if leb c.target_samples (length samples) then finish_calibration c' p else (c', p))

-- ===== src/Motion/Calibrating.antt =====
-- A calibration ends with its last sample, and its promise settles by what the samples are.
use lookauniversalremote.Prelude.{
  ℕ, ◌+◌, ◌<◌, ◌≡◌, inl, inr, refl, subst, sym, arith, ◌==◌, leb, max, if◌then◌else◌, true, false,
  pos, List, [], ◌∷◌, ◌++◌, length, Option, none, some, length-append, Bool-cases,
}
use mathlib.Core.List.{append_assoc}
use lookauniversalremote.Motion.{Floats, ImuRawSample, ImuSensorPipeline}
use lookauniversalremote.Motion.Bias.{
  GyroBias, BiasJson, BiasCalibrator, is_calibrating, Settlement, resolved, moved, cancelled,
  no_samples, calibrated,
}
use lookauniversalremote.Motion.Calibrator.{
  is_settled, settle, cancel_calibration, start_calibration, finish_calibration, accumulate_sample,
  max_variance_of, result_of, mean_bias, report_progress, progress_pct, noise_of,
}
use lookauniversalremote.Motion.Listeners.{IsBound, count_kind}
use lookauniversalremote.Motion.Tied.{IsTied, save-cases}
use lookauniversalremote.Motion.Collecting.{start_calibration-IsTied, accumulate-IsTied}

some_eq {ℓ} : {A : Type ℓ} {a b : A} → some a ≡ some b → a ≡ b
some_eq e = cc

module _ {D : Type 0} where
  -- How a promise is settled.
  abbrev pub settlement_of : ℕ → List (ℕ × Settlement D) → Option (Settlement D)
  settlement_of q [] = none
  settlement_of q (s ∷ ss) = if s.0 == q then some s.1 else settlement_of q ss

  settlement-settle :
      (q : ℕ) (s : Settlement D) (ss : List (ℕ × Settlement D))
      → is_settled q ss ≡ false
      → settlement_of q (settle (some q) s ss) ≡ some s
  settlement-settle q s ss e = rw e (last ss e)
    where
      last :
          (ss : List (ℕ × Settlement D))
          → is_settled q ss ≡ false
          → settlement_of q (ss ++ (q, s) ∷ []) ≡ some s
      last [] e = ground arith
      last (t ∷ ss) e = ground (arith, last ss)

  -- What the samples mean: the device was moved, or the bias is their mean.
  abbrev pub verdict : Floats D → List (ImuRawSample D) → Settlement D
  verdict n ss =
      if n.less (n.decimal (pos 5) 3) (max_variance_of n ss)
      then moved (max_variance_of n ss)
      else resolved (result_of n ss)

  -- The bias after a calibration that started from another.
  abbrev pub bias_after : Settlement D → GyroBias D → GyroBias D
  bias_after (resolved r) b = r.bias
  bias_after cancelled b = b
  bias_after no_samples b = b
  bias_after (moved v) b = b

module _ {D R : Type 0} (n : Floats D) (json : BiasJson D R) where
  abbrev pub accumulate_all :
      List (ImuRawSample D)
      → BiasCalibrator D R
      → ImuSensorPipeline D
      → BiasCalibrator D R × ImuSensorPipeline D
  accumulate_all [] c p = (c, p)
  accumulate_all (s ∷ ss) c p = let r = accumulate_sample n json s c p in accumulate_all ss r.0 r.1

  -- The calibrator `d` when the promise `q`, made with the bias `b`, is settled by `v`.
  pub record IsOver (d : BiasCalibrator D R) (q : ℕ) (b : GyroBias D) (v : Settlement D)
      : Type 0 where
    pub settled : settlement_of q d.settled ≡ some v
    pub stopped : is_calibrating d.status ≡ false
    pub free : d.unbind_pipeline ≡ none
    pub bias : d.bias ≡ bias_after v b

  finish-IsOver :
      (q : ℕ) (c : BiasCalibrator D R) (p : ImuSensorPipeline D)
      → c.reject_calibration ≡ some q
      → c.resolve_calibration ≡ some q
      → is_settled q c.settled ≡ false
      → (length c.samples == 0) ≡ false
      → IsOver (finish_calibration n json c p).0 q c.bias (verdict n c.samples)
  unfolding finish_calibration
  finish-IsOver q c p reject resolve unsettled filled =
      rw filled (elim (Bool-cases (n.less (n.decimal (pos 5) 3) (max_variance_of n c.samples))) [
        | inl e ↦ rw e (record {
          settled =
              rw reject
                (settlement-settle q (moved (max_variance_of n c.samples)) c.settled unsettled);
          stopped = refl;
          free = refl;
          bias = refl;
        })
        | inr e ↦ rw e (
            save-cases
              (λ (d : BiasCalibrator D R).
                IsOver
                  (record d {
                    settled =
                        settle c.resolve_calibration (resolved (result_of n c.samples)) c.settled;
                    resolve_calibration = none;
                    reject_calibration = none;
                  })
                  q c.bias (resolved (result_of n c.samples)))
              json
              (record c {
                unbind_pipeline = none;
                bias = mean_bias n c.samples;
                calibrated = true;
                status = calibrated;
              })
              λ st. record {
                settled =
                    rw resolve
                      (settlement-settle q (resolved (result_of n c.samples)) c.settled unsettled);
                stopped = refl;
                free = refl;
                bias = refl;
              })
      ])

  -- The calibrator when a sample has been added, which is not the last or is.
  abbrev grown : ImuRawSample D → BiasCalibrator D R → BiasCalibrator D R
  grown s c = record c {
    samples = c.samples ++ s ∷ [];
    progress_calls =
        report_progress c.progress_callback
          (progress_pct n (length (c.samples ++ s ∷ [])) c.target_samples) (noise_of n s)
          c.progress_calls;
  }

  accumulate-more :
      (s : ImuRawSample D) (c : BiasCalibrator D R) (p : ImuSensorPipeline D)
      → is_calibrating c.status ≡ true
      → leb c.target_samples (length (c.samples ++ s ∷ [])) ≡ false
      → accumulate_sample n json s c p ≡ (grown s c, p)
  unfolding accumulate_sample
  accumulate-more s c p busy short = rw (busy, short) refl

  accumulate-last :
      (s : ImuRawSample D) (c : BiasCalibrator D R) (p : ImuSensorPipeline D)
      → is_calibrating c.status ≡ true
      → leb c.target_samples (length (c.samples ++ s ∷ [])) ≡ true
      → accumulate_sample n json s c p ≡ finish_calibration n json (grown s c) p
  unfolding accumulate_sample
  accumulate-last s c p busy reached = rw (busy, reached) refl

  -- The samples that are missing settle the promise.
  collect :
      (ss : List (ImuRawSample D)) (q : ℕ) (c : BiasCalibrator D R) (p : ImuSensorPipeline D)
      → is_calibrating c.status ≡ true
      → c.reject_calibration ≡ some q
      → c.resolve_calibration ≡ some q
      → is_settled q c.settled ≡ false
      → length c.samples < c.target_samples
      → length c.samples + length ss ≡ c.target_samples
      → IsOver (accumulate_all ss c p).0 q c.bias (verdict n (c.samples ++ ss))
  collect [] q c p busy reject resolve unsettled short whole = absurd (omega arith)
  collect (s ∷ []) q c p busy reject resolve unsettled short whole =
      rw (accumulate-last s c p busy (ground (arith, length-append c.samples (s ∷ [])))) (
        finish-IsOver q (grown s c) p reject resolve unsettled
          (ground (arith, length-append c.samples (s ∷ []))))
  collect (s ∷ t ∷ ss) q c p busy reject resolve unsettled short whole =
      subst
        (λ (r : BiasCalibrator D R × ImuSensorPipeline D).
          IsOver (accumulate_all (t ∷ ss) r.0 r.1).0 q c.bias (verdict n (c.samples ++ s ∷ t ∷ ss)))
        (sym (accumulate-more s c p busy (ground (arith, length-append c.samples (s ∷ [])))))
        (subst (λ xs. IsOver (accumulate_all (t ∷ ss) (grown s c) p).0 q c.bias (verdict n xs))
          (append_assoc c.samples (s ∷ []) (t ∷ ss))
          (collect (t ∷ ss) q (grown s c) p busy reject resolve unsettled
            (ground (arith, length-append c.samples (s ∷ [])))
            (omega (arith, length-append c.samples (s ∷ [])))))

  accumulate_all-IsTied :
      (ss : List (ImuRawSample D)) (c : BiasCalibrator D R) (p : ImuSensorPipeline D) (k : Option ℕ)
      → IsTied c p k
      → let r = accumulate_all ss c p in IsTied r.0 r.1 k
  accumulate_all-IsTied [] c p k tied = tied
  accumulate_all-IsTied (s ∷ ss) c p k tied =
      let r = accumulate_sample n json s c p in
      accumulate_all-IsTied ss r.0 r.1 k (accumulate-IsTied n json s c p k tied)

  -- A calibration started on a sound calibrator and pipeline, whatever ran before, ends with the
  -- sample that fills its target, 20 at least: its promise is settled by the verdict on these
  -- samples, which is the mean as the new bias, or that the device was moved, with the bias of
  -- before; it no longer collects samples, and the pipeline has no listener left that does.
  pub calibration-IsOver :
      (count : ℕ) (f : Option ℕ) (c : BiasCalibrator D R) (p : ImuSensorPipeline D) (k : Option ℕ)
      (ss : List (ImuRawSample D))
      → IsTied c p k
      → length ss ≡ max 20 count
      → let (c', p', q) = start_calibration count f c p in
        let (c'', p'') = accumulate_all ss c' p' in
        IsOver c'' q c.bias (verdict n ss) × (count_kind 0 p''.listeners ≡ 0)
  unfolding start_calibration cancel_calibration
  calibration-IsOver count f c p k ss tied whole =
      let started = start_calibration-IsTied count f c p k tied in
      let run = started.promises.active refl in
      let same : c.next_promise ≡ run.promise = some_eq run.reject in
      let (c', p', q) = start_calibration count f c p in
      let over =
        collect ss c.next_promise c' p' refl refl refl
          (subst (λ q. is_settled q c'.settled ≡ false) (sym same) run.unsettled) (ground arith)
          (omega (arith, whole)) in
      let (c'', p'') = accumulate_all ss c' p' in
      let ended = accumulate_all-IsTied ss c' p' k started in
      (over, subst (λ o. IsBound 0 o p''.listeners) over.free ended.accumulating)

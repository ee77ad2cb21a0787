-- ===== src/Motion/Collecting.antt =====
-- A calibration, from its start to its end: the calibrator and its pipeline stay tied.
use lookauniversalremote.Prelude.{
  ℕ, suc, ◌<◌, ◌≡◌, ◌⊎◌, inl, inr, refl, ap, subst, arith, ◌==◌, leb, max, true, false, not, pos,
  List, [], ◌∷◌, ◌++◌, length, Option, none, some, if_either, Bool-cases, ltb, ltb→lt, ltb→le,
}
use lookauniversalremote.Motion.{Floats, Whole, ImuRawSample, accumulates, ImuSensorPipeline}
use lookauniversalremote.Motion.Pipeline.{start, on_sample}
use lookauniversalremote.Motion.Bias.{
  GyroBias, BiasJson, BiasStorage, BiasCalibrator, is_calibrating, calibrating, calibrated, failed,
  Settlement, no_samples, moved, resolved,
}
use lookauniversalremote.Motion.Calibrator.{
  is_settled, settle, unbind, cancel_calibration, start_calibration, finish_calibration,
  accumulate_sample, max_variance_of, result_of, mean_bias,
}
use lookauniversalremote.Motion.Listeners.{IsBound, added-IsDistinct, added-IsBound, added-other}
use lookauniversalremote.Motion.Attached.{
  undo_not, IsAttached, Keeps, start-Keeps, start-IsAttached,
}
use lookauniversalremote.Motion.Tied.{
  IsTied, IsAnswered, all_settled, all_known, save-cases, unbind-IsAttached, unbind-IsDistinct,
  unbind-Bound, unbind-other, cancel-IsTied,
}

module _ {D R : Type 0} where
  -- Only the pipeline's listeners and their next identity matter to what the calibrator holds.
  pub moved-IsTied :
      (c : BiasCalibrator D R) (p q : ImuSensorPipeline D) (k : Option ℕ)
      → Keeps p q
      → IsAttached q
      → IsTied c p k
      → IsTied c q k
  moved-IsTied c p q k keeps attached tied = record {
    attached = attached;
    distinct = rw (keeps.listeners, keeps.next) tied.distinct;
    accumulating = rw keeps.listeners tied.accumulating;
    keeping = rw keeps.listeners tied.keeping;
    promises = tied.promises;
  }

  -- The next promise is not settled, and it is the only new one.
  fresh : (c : BiasCalibrator D R) → IsAnswered c → is_settled c.next_promise c.settled ≡ false
  fresh c ok = elim (Bool-cases (is_settled c.next_promise c.settled)) [
    | inl e ↦ absurd (omega (arith, ok.known c.next_promise e))
    | inr e ↦ e
  ]

  newest :
      (c : BiasCalibrator D R)
      → c.reject_calibration ≡ none
      → IsAnswered c
      → (q : ℕ) → q < suc c.next_promise
      → (some c.next_promise ≡ some q) ⊎ (is_settled q c.settled ≡ true)
  newest c no_promise ok q lt = elim (Bool-cases (ltb q c.next_promise)) [
    | inl e ↦ elim (ok.answered q (ltb→lt q c.next_promise e)) [
      | inl held ↦ absurd cc
      | inr t ↦ inr t
    ]
    | inr e ↦
        let same : c.next_promise ≡ q = omega (arith, ltb→le q c.next_promise e) in
        inl (ap some same)
  ]

  -- A calibrator that has no listener and no promise to settle gets both.
  begun-IsTied :
      (c : BiasCalibrator D R) (p : ImuSensorPipeline D) (k : Option ℕ) (target : ℕ) (f : Option ℕ)
      → c.unbind_pipeline ≡ none
      → c.reject_calibration ≡ none
      → 0 < target
      → IsTied c p k
      → let r = on_sample accumulates p in
        IsTied
          (record c {
            samples = [];
            target_samples = target;
            progress_callback = f;
            status = calibrating;
            resolve_calibration = some c.next_promise;
            reject_calibration = some c.next_promise;
            next_promise = suc c.next_promise;
            unbind_pipeline = some r.1;
          })
          r.0
          k
  unfolding on_sample
  begun-IsTied c p k target f free no_promise room tied = record {
    attached = record {
      attached = tied.attached.attached;
      running = tied.attached.running;
      window = tied.attached.window;
    };
    distinct = added-IsDistinct p.listeners p.next_listener tied.distinct accumulates;
    accumulating =
        added-IsBound p.listeners p.next_listener tied.distinct accumulates 0 refl
          (subst (λ o. IsBound 0 o p.listeners) free tied.accumulating);
    keeping =
        added-other p.listeners p.next_listener tied.distinct accumulates 1 k (omega arith)
          tied.keeping;
    promises = record {
      same = refl;
      known = λ q e. omega (arith, tied.promises.known q e);
      last = λ q e. let same : c.next_promise ≡ q = cc in omega arith;
      answered = λ q lt. newest c no_promise tied.promises q lt;
      active = λ e. record {
        promise = c.next_promise;
        listener = p.next_listener;
        reject = refl;
        unsettled = fresh c tied.promises;
        bound = refl;
        short = room;
      };
    };
  }

  pub start_calibration-IsTied :
      (count : ℕ) (f : Option ℕ) (c : BiasCalibrator D R) (p : ImuSensorPipeline D) (k : Option ℕ)
      → IsTied c p k
      → let r = start_calibration count f c p in IsTied r.0 r.1 k
  unfolding start_calibration cancel_calibration
  start_calibration-IsTied count f c p k tied =
      let (c', p') = cancel_calibration c p in
      let over = cancel-IsTied c p k tied in
      begun-IsTied c' (start p').0 k (max 20 count) f refl refl (ground arith) (
        moved-IsTied c' p' (start p').0 k (start-Keeps p') (start-IsAttached p' over.attached) over)

module _ {D R : Type 0} (n : Floats D) (json : BiasJson D R) where
  -- The calibrator with new samples, at the end of each branch of `finishCalibration`.
  module _ (ss : List (ImuRawSample D)) (pc : List (ℕ × Whole × D)) (c : BiasCalibrator D R)
      (p : ImuSensorPipeline D) (k : Option ℕ) (tied : IsTied c p k) where
    ended :
        (d : BiasCalibrator D R)
        → d.unbind_pipeline ≡ none
        → IsAnswered d
        → IsTied d (unbind c.unbind_pipeline p) k
    ended d free answered = record {
      attached = unbind-IsAttached c.unbind_pipeline p tied.attached;
      distinct = unbind-IsDistinct 0 c.unbind_pipeline p tied.distinct tied.accumulating;
      accumulating = rw free (unbind-Bound 0 c.unbind_pipeline p tied.distinct tied.accumulating);
      keeping =
          unbind-other 0 c.unbind_pipeline p 1 k (omega arith) tied.distinct tied.accumulating
            tied.keeping;
      promises = answered;
    }

    rejected :
        (s : Settlement D)
        → IsAnswered (record c {
          samples = ss;
          progress_calls = pc;
          unbind_pipeline = none;
          status = failed;
          settled = settle c.reject_calibration s c.settled;
        })
    rejected s = record {
      same = tied.promises.same;
      known = all_known c s tied.promises;
      last = tied.promises.last;
      answered = λ q lt. inr (all_settled c s tied.promises q lt);
      active = λ e. absurd cc;
    }

    accepted :
        (s : Settlement D) (b : GyroBias D) (st : BiasStorage R)
        → IsAnswered (record c {
          samples = ss;
          progress_calls = pc;
          unbind_pipeline = none;
          bias = b;
          calibrated = true;
          status = calibrated;
          storage = st;
          settled = settle c.resolve_calibration s c.settled;
          resolve_calibration = none;
          reject_calibration = none;
        })
    accepted s b st = record {
      same = refl;
      known = rw tied.promises.same (all_known c s tied.promises);
      last = λ q e. absurd cc;
      answered = λ q lt. inr (rw tied.promises.same (all_settled c s tied.promises q lt));
      active = λ e. absurd cc;
    }

    -- Finishing settles the promise, whatever samples there are.
    finish-IsTied :
        let r = finish_calibration n json (record c { samples = ss; progress_calls = pc }) p in
        IsTied r.0 r.1 k
    unfolding finish_calibration
    finish-IsTied =
        let P = λ (r : BiasCalibrator D R × ImuSensorPipeline D). IsTied r.0 r.1 k in
        if_either P (length ss == 0) (λ e. ended _ refl (rejected no_samples))
          λ e.
            if_either P (n.less (n.decimal (pos 5) 3) (max_variance_of n ss))
              (λ h. ended _ refl (rejected (moved (max_variance_of n ss))))
              λ h.
                save-cases
                  (λ (d : BiasCalibrator D R).
                    IsTied
                      (record d {
                        settled =
                            settle c.resolve_calibration (resolved (result_of n ss)) c.settled;
                        resolve_calibration = none;
                        reject_calibration = none;
                      })
                      (unbind c.unbind_pipeline p) k)
                  json
                  (record c {
                    samples = ss;
                    progress_calls = pc;
                    unbind_pipeline = none;
                    bias = mean_bias n ss;
                    calibrated = true;
                    status = calibrated;
                  })
                  (λ st. ended _ refl (accepted (resolved (result_of n ss)) (mean_bias n ss) st))

  pub accumulate-IsTied :
      (s : ImuRawSample D) (c : BiasCalibrator D R) (p : ImuSensorPipeline D) (k : Option ℕ)
      → IsTied c p k
      → let r = accumulate_sample n json s c p in IsTied r.0 r.1 k
  unfolding accumulate_sample
  accumulate-IsTied s c p k tied =
      let P = λ (r : BiasCalibrator D R × ImuSensorPipeline D). IsTied r.0 r.1 k in
      if_either P (not (is_calibrating c.status)) (λ e. tied)
        λ busy.
          if_either P (leb c.target_samples (length (c.samples ++ s ∷ [])))
            (λ e. finish-IsTied (c.samples ++ s ∷ []) _ c p k tied)
            λ e.
              let run = tied.promises.active (undo_not _ busy) in
              record {
                attached = tied.attached;
                distinct = tied.distinct;
                accumulating = tied.accumulating;
                keeping = tied.keeping;
                promises = record {
                  same = tied.promises.same;
                  known = tied.promises.known;
                  last = tied.promises.last;
                  answered = tied.promises.answered;
                  active = λ h. record {
                    promise = run.promise;
                    listener = run.listener;
                    reject = run.reject;
                    unsettled = run.unsettled;
                    bound = run.bound;
                    short = ground arith;
                  };
                };
              }

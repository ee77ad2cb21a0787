-- ===== src/Motion/Tied.antt =====
-- The calibrator and its pipeline: what every operation of the two keeps.
use lookauniversalremote.Prelude.{
  ℕ, ◌<◌, ◌≡◌, ◌≢◌, ◌⊎◌, inl, inr, refl, arith, ◌==◌, if◌then◌else◌, Bool, true, false, List, [],
  ◌∷◌, ◌++◌, length, Option, none, some, if_either,
}
use lookauniversalremote.Motion.{Floats, ImuSensorPipeline}
use lookauniversalremote.Motion.Pipeline.{off_sample}
use lookauniversalremote.Motion.Bias.{
  GyroBias, BiasJson, BiasStorage, BiasCalibrator, is_calibrating, CalibrationStatus, calibrating,
  idle, calibrated, failed, Settlement, cancelled, set_bias, clear_bias, save_to_storage,
}
use lookauniversalremote.Motion.Calibrator.{is_settled, settle, unbind, cancel_calibration}
use lookauniversalremote.Motion.Listeners.{
  IsBound, IsDistinct, without-IsDistinct, without-IsBound, without-other,
}
use lookauniversalremote.Motion.Attached.{IsAttached}

cancelled_resolve : (o r : Option ℕ) → r ≡ o → (elim o [ none ↦ r | some q ↦ none ]) ≡ none
cancelled_resolve none r e = e
cancelled_resolve (some q) r e = refl

contradiction : (b : Bool) → b ≡ true → b ≡ false → ⊥
contradiction b e f = cc

calm :
    (s : CalibrationStatus) (b : Bool)
    → is_calibrating (if is_calibrating s then (if b then calibrated else idle) else s) ≡ false
calm idle b = refl
calm calibrating true = refl
calm calibrating false = refl
calm calibrated b = refl
calm failed b = refl

-- What the code holds for a calibration that runs.
pub record IsRunning {D R : Type 0} (c : BiasCalibrator D R) : Type 0 where
  pub promise : ℕ
  pub listener : ℕ
  pub reject : c.reject_calibration ≡ some promise
  pub unsettled : is_settled promise c.settled ≡ false
  pub bound : c.unbind_pipeline ≡ some listener
  pub short : length c.samples < c.target_samples

-- The promises: the one that the calibrator can settle, and all the others, which are settled.
pub record IsAnswered {D R : Type 0} (c : BiasCalibrator D R) : Type 0 where
  pub same : c.resolve_calibration ≡ c.reject_calibration
  pub known : (q : ℕ) → is_settled q c.settled ≡ true → q < c.next_promise
  pub last : (q : ℕ) → c.reject_calibration ≡ some q → q < c.next_promise
  pub answered :
      (q : ℕ)
      → q < c.next_promise
      → (c.reject_calibration ≡ some q) ⊎ (is_settled q c.settled ≡ true)
  pub active : is_calibrating c.status ≡ true → IsRunning c

-- The calibrator and its pipeline, with the removing function that the controller holds.
pub record IsTied {D R : Type 0} (c : BiasCalibrator D R) (p : ImuSensorPipeline D) (k : Option ℕ)
    : Type 0 where
  pub attached : IsAttached p
  pub distinct : IsDistinct p.listeners p.next_listener
  pub accumulating : IsBound 0 c.unbind_pipeline p.listeners
  pub keeping : IsBound 1 k p.listeners
  pub promises : IsAnswered c

module _ {D : Type 0} where
  is_settled-snoc :
      (q r : ℕ) (s : Settlement D) (ss : List (ℕ × Settlement D))
      → is_settled q (ss ++ (r, s) ∷ []) ≡ (if is_settled q ss then true else r == q)
  is_settled-snoc q r s [] = ground arith
  is_settled-snoc q r s (t ∷ ss) = ground (arith, is_settled-snoc q r s ss)

  pub settled_others :
      (q : ℕ) (o : Option ℕ) (s : Settlement D) (ss : List (ℕ × Settlement D))
      → is_settled q ss ≡ true
      → is_settled q (settle o s ss) ≡ true
  settled_others q none s ss e = e
  settled_others q (some r) s ss e = ground (arith, is_settled-snoc q r s ss)

  pub settled_itself :
      (q : ℕ) (s : Settlement D) (ss : List (ℕ × Settlement D))
      → is_settled q (settle (some q) s ss) ≡ true
  settled_itself q s ss = ground (arith, is_settled-snoc q q s ss)

  pub settled_before :
      (q : ℕ) (o : Option ℕ) (s : Settlement D) (ss : List (ℕ × Settlement D))
      → is_settled q (settle o s ss) ≡ true
      → (o ≡ some q) ⊎ (is_settled q ss ≡ true)
  settled_before q none s ss e = inr e
  settled_before q (some r) s ss e = ground (arith, is_settled-snoc q r s ss)

  -- The removing function of a kind is called, if it is there.
  pub unbind-Bound :
      (k : ℕ) (o : Option ℕ) (p : ImuSensorPipeline D)
      → IsDistinct p.listeners p.next_listener
      → IsBound k o p.listeners
      → IsBound k none (unbind o p).listeners
  unfolding off_sample
  unbind-Bound k none p distinct bound = bound
  unbind-Bound k (some i) p distinct bound =
      without-IsBound p.listeners p.next_listener distinct k i bound

  pub unbind-IsDistinct :
      (k : ℕ) (o : Option ℕ) (p : ImuSensorPipeline D)
      → IsDistinct p.listeners p.next_listener
      → IsBound k o p.listeners
      → IsDistinct (unbind o p).listeners (unbind o p).next_listener
  unfolding off_sample
  unbind-IsDistinct k none p distinct bound = distinct
  unbind-IsDistinct k (some i) p distinct bound =
      without-IsDistinct p.listeners p.next_listener distinct k i bound

  pub unbind-IsAttached :
      (o : Option ℕ) (p : ImuSensorPipeline D) → IsAttached p → IsAttached (unbind o p)
  unfolding off_sample
  unbind-IsAttached none p ok = ok
  unbind-IsAttached (some i) p ok = record {
    attached = ok.attached;
    running = ok.running;
    window = ok.window;
  }

  pub unbind-other :
      (k : ℕ) (o : Option ℕ) (p : ImuSensorPipeline D) (j : ℕ) (held : Option ℕ)
      → k ≢ j
      → IsDistinct p.listeners p.next_listener
      → IsBound k o p.listeners
      → IsBound j held p.listeners
      → IsBound j held (unbind o p).listeners
  unfolding off_sample
  unbind-other k none p j held other distinct bound there = there
  unbind-other k (some i) p j held other distinct bound there =
      without-other p.listeners p.next_listener distinct k i bound j held other there

module _ {D R : Type 0} where
  -- Settling the promise that the calibrator holds answers every promise.
  pub all_settled :
      (c : BiasCalibrator D R) (s : Settlement D)
      → IsAnswered c
      → (q : ℕ) → q < c.next_promise
      → is_settled q (settle c.reject_calibration s c.settled) ≡ true
  all_settled c s ok q lt = elim (ok.answered q lt) [
    | inl e ↦ rw e (settled_itself q s c.settled)
    | inr e ↦ settled_others q c.reject_calibration s c.settled e
  ]

  pub all_known :
      (c : BiasCalibrator D R) (s : Settlement D)
      → IsAnswered c
      → (q : ℕ) → is_settled q (settle c.reject_calibration s c.settled) ≡ true
      → q < c.next_promise
  all_known c s ok q e = elim (settled_before q c.reject_calibration s c.settled e) [
    | inl r ↦ ok.last q r
    | inr t ↦ ok.known q t
  ]

  cancel-IsAnswered :
      (c : BiasCalibrator D R) (p : ImuSensorPipeline D)
      → IsAnswered c
      → IsAnswered (cancel_calibration c p).0
  unfolding cancel_calibration
  cancel-IsAnswered c p ok = record {
    same = cancelled_resolve c.reject_calibration c.resolve_calibration ok.same;
    known = all_known c cancelled ok;
    last = λ q e. absurd cc;
    answered = λ q lt. inr (all_settled c cancelled ok q lt);
    active = λ e. absurd (contradiction _ e (calm c.status c.calibrated));
  }

  pub cancel-IsTied :
      (c : BiasCalibrator D R) (p : ImuSensorPipeline D) (k : Option ℕ)
      → IsTied c p k
      → IsTied (cancel_calibration c p).0 (cancel_calibration c p).1 k
  unfolding cancel_calibration
  cancel-IsTied c p k tied = record {
    attached = unbind-IsAttached c.unbind_pipeline p tied.attached;
    distinct = unbind-IsDistinct 0 c.unbind_pipeline p tied.distinct tied.accumulating;
    accumulating = unbind-Bound 0 c.unbind_pipeline p tied.distinct tied.accumulating;
    keeping =
        unbind-other 0 c.unbind_pipeline p 1 k (omega arith) tied.distinct tied.accumulating
          tied.keeping;
    promises = cancel-IsAnswered c p tied.promises;
  }

  -- Storing the bias changes the storage at most.
  pub save-cases :
      (P : BiasCalibrator D R → Type 0) (json : BiasJson D R) (c : BiasCalibrator D R)
      → ((st : BiasStorage R) → P (record c { storage = st }))
      → P (save_to_storage json c)
  unfolding save_to_storage
  save-cases P json c any =
      if_either P c.storage.available
        (λ e. if_either P c.storage.has_room (λ h. any _) (λ h. any c.storage)) (λ e. any c.storage)

  pub set_bias-IsAnswered :
      (json : BiasJson D R) (b : GyroBias D) (c : BiasCalibrator D R)
      → IsAnswered c
      → IsAnswered (set_bias json b c)
  unfolding set_bias
  set_bias-IsAnswered json b c ok =
      save-cases IsAnswered json (record c { bias = b; calibrated = true; status = calibrated })
        λ st. record {
          same = ok.same;
          known = ok.known;
          last = ok.last;
          answered = ok.answered;
          active = λ e. absurd cc;
        }

  pub clear_bias-IsAnswered :
      (n : Floats D) (c : BiasCalibrator D R) → IsAnswered c → IsAnswered (clear_bias n c)
  unfolding clear_bias
  clear_bias-IsAnswered n c ok = record {
    same = ok.same;
    known = ok.known;
    last = ok.last;
    answered = ok.answered;
    active = λ e. absurd cc;
  }

-- ===== src/Motion/Soundness.antt =====
-- Everything that can happen to the pipeline, the calibrator and the controller, in any order.
use lookauniversalremote.Prelude.{
  ℕ, ◌≡◌, refl, arith, Bool, true, false, List, [], ◌∷◌, Option, none, some,
}
use lookauniversalremote.Motion.{Floats, keeps_latest, calls, ImuSensorPipeline}
use lookauniversalremote.Motion.Pipeline as Pipeline
use lookauniversalremote.Motion.Pipeline.{
  Response, DeviceMotionEvent, read_event, request_permission, on_sample,
}
use lookauniversalremote.Motion.Bias.{GyroBias, BiasJson, BiasCalibrator, set_bias, clear_bias}
use lookauniversalremote.Motion.Calibrator.{cancel_calibration, start_calibration, unbind}
use lookauniversalremote.Motion.Controller.{
  GyroAimMode, GyroAimController, PartialConfig, set_config, set_aim_mode, set_toggle_active,
  update_gamepad_inputs, start, stop, get_motion_snapshot, handle_device_motion,
}
use lookauniversalremote.Motion.Listeners.{added-IsDistinct, added-IsBound, added-other}
use lookauniversalremote.Motion.Attached.{}
use lookauniversalremote.Motion.Tied.{
  IsTied, IsAnswered, unbind-IsAttached, unbind-IsDistinct, unbind-Bound, unbind-other,
}
use lookauniversalremote.Motion.Collecting.{}

-- A call of an operation, or an event of the device.
pub data Action (D : Type 0) : Type 0 where
  ask : Response → Action D
  start_pipeline stop_pipeline start_aim stop_aim cancel forget_bias read_motion : Action D
  listen : ℕ → Action D
  calibrate : ℕ → Option ℕ → Action D
  keep_bias : GyroBias D → Action D
  configure : PartialConfig D → Action D
  aim : GyroAimMode → Action D
  activate : Bool → Action D
  gamepad : ℕ → Bool → Action D
  motion : ℕ → DeviceMotionEvent D → Action D

module _ {D R : Type 0} (n : Floats D) (json : BiasJson D R) where
  abbrev pub act : Action D → GyroAimController D R → GyroAimController D R
  act (ask a) g = record g { pipeline = (request_permission a g.pipeline).0 }
  act start_pipeline g = record g { pipeline = (Pipeline.start g.pipeline).0 }
  act stop_pipeline g = record g { pipeline = Pipeline.stop g.pipeline }
  act start_aim g = start g
  act stop_aim g = stop n g
  act cancel g =
      let r = cancel_calibration g.calibrator g.pipeline in
      record g { calibrator = r.0; pipeline = r.1 }
  act forget_bias g = record g { calibrator = clear_bias n g.calibrator }
  act read_motion g = (get_motion_snapshot n g).0
  act (listen f) g = record g { pipeline = (on_sample (calls f) g.pipeline).0 }
  act (calibrate count f) g =
      let r = start_calibration count f g.calibrator g.pipeline in
      record g { calibrator = r.0; pipeline = r.1 }
  act (keep_bias b) g = record g { calibrator = set_bias json b g.calibrator }
  act (configure c) g = set_config c g
  act (aim mode) g = set_aim_mode mode g
  act (activate on) g = set_toggle_active on g
  act (gamepad l pressed) g = update_gamepad_inputs l pressed g
  act (motion micros e) g = handle_device_motion n json micros e g

  abbrev pub act_all : List (Action D) → GyroAimController D R → GyroAimController D R
  act_all [] g = g
  act_all (a ∷ rest) g = act_all rest (act a g)

-- Whether the controller holds the function that removes its listener.
abbrev pub holds : Option ℕ → Bool
holds none = false
holds (some i) = true

-- The pipeline is attached exactly while it runs; the listeners of a calibration and of the
-- controller are exactly those that they can remove, and the controller has one exactly while it
-- runs; and each promise of a calibration is settled or the one that the calibrator can settle.
pub record IsSound {D R : Type 0} (g : GyroAimController D R) : Type 0 where
  pub tied : IsTied g.calibrator g.pipeline g.unbind_pipeline
  pub running : holds g.unbind_pipeline ≡ g.is_running

module _ {D R : Type 0} where
  -- A calibrator with the same promises and the same listener may stand for another.
  pub with_calibrator :
      (c d : BiasCalibrator D R) (p : ImuSensorPipeline D) (k : Option ℕ)
      → d.unbind_pipeline ≡ c.unbind_pipeline
      → IsAnswered d
      → IsTied c p k
      → IsTied d p k
  with_calibrator c d p k same answered tied = record {
    attached = tied.attached;
    distinct = tied.distinct;
    accumulating = rw same tied.accumulating;
    keeping = tied.keeping;
    promises = answered;
  }

  pub listen-IsTied :
      (f : ℕ) (c : BiasCalibrator D R) (p : ImuSensorPipeline D) (k : Option ℕ)
      → IsTied c p k
      → IsTied c (on_sample (calls f) p).0 k
  unfolding on_sample
  listen-IsTied f c p k tied = record {
    attached = record {
      attached = tied.attached.attached;
      running = tied.attached.running;
      window = tied.attached.window;
    };
    distinct = added-IsDistinct p.listeners p.next_listener tied.distinct (calls f);
    accumulating =
        added-other p.listeners p.next_listener tied.distinct (calls f) 0 c.unbind_pipeline
          (omega arith) tied.accumulating;
    keeping =
        added-other p.listeners p.next_listener tied.distinct (calls f) 1 k (omega arith)
          tied.keeping;
    promises = tied.promises;
  }

  pub keep_latest-IsTied :
      (c : BiasCalibrator D R) (p : ImuSensorPipeline D)
      → IsTied c p none
      → let r = on_sample keeps_latest p in IsTied c r.0 (some r.1)
  unfolding on_sample
  keep_latest-IsTied c p tied = record {
    attached = record {
      attached = tied.attached.attached;
      running = tied.attached.running;
      window = tied.attached.window;
    };
    distinct = added-IsDistinct p.listeners p.next_listener tied.distinct keeps_latest;
    accumulating =
        added-other p.listeners p.next_listener tied.distinct keeps_latest 0 c.unbind_pipeline
          (omega arith) tied.accumulating;
    keeping =
        added-IsBound p.listeners p.next_listener tied.distinct keeps_latest 1 refl tied.keeping;
    promises = tied.promises;
  }

  pub forget_latest-IsTied :
      (c : BiasCalibrator D R) (p : ImuSensorPipeline D) (k : Option ℕ)
      → IsTied c p k
      → IsTied c (unbind k p) none
  forget_latest-IsTied c p k tied = record {
    attached = unbind-IsAttached k p tied.attached;
    distinct = unbind-IsDistinct 1 k p tied.distinct tied.keeping;
    accumulating =
        unbind-other 1 k p 0 c.unbind_pipeline (omega arith) tied.distinct tied.keeping
          tied.accumulating;
    keeping = unbind-Bound 1 k p tied.distinct tied.keeping;
    promises = tied.promises;
  }

-- ===== src/Motion/Controller.antt =====
-- GyroAimController.ts: when the aim is active, and the motion that it reads. The controller keeps
-- the pipeline and the calibrator, which others may use too: the three are one state here.
use lookauniversalremote.Prelude.{
  ℕ, ◌==◌, leb, if◌then◌else◌, Bool, true, false, not, ◌||◌, List, [], ◌∷◌, ◌++◌, Option, none,
  some,
}
use lookauniversalremote.Trackpad.State.{or_else}
use lookauniversalremote.Motion.{
  Floats, ImuRawSample, SampleCallback, accumulates, keeps_latest, calls, SampleListener,
  ImuSensorPipeline,
}
use lookauniversalremote.Motion.Pipeline as Pipeline
use lookauniversalremote.Motion.Pipeline.{DeviceMotionEvent, read_event, on_sample, off_sample}
use lookauniversalremote.Motion.Filters.{
  PartialOptions, FilteredMotion, MotionFilters, set_options, new_filters, reset_filters,
  process_sample,
}
use lookauniversalremote.Motion.Bias.{BiasJson, BiasCalibrator, is_calibrating, apply_bias}
use lookauniversalremote.Motion.Calibrator.{unbind, accumulate_sample}

pub data GyroAimMode : Type 0 where
  disabled always_on hold_lt toggle : GyroAimMode

pub record GyroAimControllerConfig (D : Type 0) : Type 0 where
  pub aim_mode : GyroAimMode
  pub lt_threshold : ℕ
  pub filter_options : PartialOptions D

-- `Partial<GyroAimControllerConfig>`.
pub record PartialConfig (D : Type 0) : Type 0 where
  pub aim_mode : Option GyroAimMode
  pub lt_threshold : Option ℕ
  pub filter_options : Option (PartialOptions D)

pub record GyroAimController (D R : Type 0) : Type 0 where
  pub config : GyroAimControllerConfig D
  pub pipeline : ImuSensorPipeline D
  pub calibrator : BiasCalibrator D R
  pub filters : MotionFilters D
  pub is_toggle_active : Bool
  pub is_lt_held : Bool
  pub is_aim_button_held : Bool
  pub is_running : Bool
  pub unbind_pipeline : Option ℕ
  pub latest_raw_sample : Option (ImuRawSample D)

abbrev pub is_registered : ℕ → List SampleListener → Bool
is_registered id [] = false
is_registered id (l ∷ ls) = if l.id == id then true else is_registered id ls

module _ {D : Type 0} where
  abbrev pub no_options : PartialOptions D
  no_options = record {
    deadzone_rad = none;
    smoothing = none;
    sensitivity_x = none;
    sensitivity_y = none;
    invert_x = none;
    invert_y = none;
    roll_mix = none;
  }

  abbrev pub default_aim_config : GyroAimControllerConfig D
  default_aim_config = record {
    aim_mode = always_on;
    lt_threshold = 25;
    filter_options = no_options;
  }

  abbrev pub merge_config : GyroAimControllerConfig D → PartialConfig D → GyroAimControllerConfig D
  merge_config c new = record {
    aim_mode = or_else new.aim_mode c.aim_mode;
    lt_threshold = or_else new.lt_threshold c.lt_threshold;
    filter_options = or_else new.filter_options c.filter_options;
  }

module _ {D R : Type 0} where
  unfoldable pub set_config : PartialConfig D → GyroAimController D R → GyroAimController D R
  unfolding set_options
  set_config new g = record g {
    config = merge_config g.config new;
    filters = elim new.filter_options [ none ↦ g.filters | some o ↦ set_options o g.filters ];
  }

  unfoldable pub set_aim_mode : GyroAimMode → GyroAimController D R → GyroAimController D R
  set_aim_mode mode g = record g { config = record g.config { aim_mode = mode } }

  unfoldable pub toggle_aim : GyroAimController D R → GyroAimController D R × Bool
  toggle_aim g = (record g { is_toggle_active = not g.is_toggle_active }, not g.is_toggle_active)

  unfoldable pub set_toggle_active : Bool → GyroAimController D R → GyroAimController D R
  set_toggle_active active g = record g { is_toggle_active = active }

  unfoldable pub update_gamepad_inputs : ℕ → Bool → GyroAimController D R → GyroAimController D R
  update_gamepad_inputs trigger_l is_aim_button_pressed g = record g {
    is_lt_held = leb g.config.lt_threshold trigger_l;
    is_aim_button_held = is_aim_button_pressed;
  }

  unfoldable pub is_aim_active : GyroAimController D R → Bool
  is_aim_active g = elim g.config.aim_mode [
    | disabled ↦ false
    | always_on ↦ not (is_calibrating g.calibrator.status)
    | hold_lt ↦
        if is_calibrating g.calibrator.status then false else g.is_lt_held || g.is_aim_button_held
    | toggle ↦ if is_calibrating g.calibrator.status then false else g.is_toggle_active
  ]

  -- It answers true, whatever the pipeline answers.
  unfoldable pub start : GyroAimController D R → GyroAimController D R
  unfolding Pipeline.start on_sample
  start g =
      if g.is_running
      then g
      else (let (p, l) = on_sample keeps_latest (Pipeline.start g.pipeline).0 in
          record g { is_running = true; pipeline = p; unbind_pipeline = some l })

module _ {D R : Type 0} (n : Floats D) where
  unfoldable pub new_controller :
      ImuSensorPipeline D → BiasCalibrator D R → PartialConfig D → GyroAimController D R
  unfolding new_filters
  new_controller pipeline calibrator config =
      let c = merge_config default_aim_config config in
      record {
        config = c;
        pipeline = pipeline;
        calibrator = calibrator;
        filters = new_filters n c.filter_options;
        is_toggle_active = false;
        is_lt_held = false;
        is_aim_button_held = false;
        is_running = false;
        unbind_pipeline = none;
        latest_raw_sample = none;
      }

  unfoldable pub stop : GyroAimController D R → GyroAimController D R
  unfolding Pipeline.stop reset_filters
  stop g = if not g.is_running then g else record g {
    is_running = false;
    unbind_pipeline = none;
    pipeline = Pipeline.stop (unbind g.unbind_pipeline g.pipeline);
    filters = reset_filters n g.filters;
  }

  -- `this.latestRawSample || this.pipeline.getLastSample()`.
  abbrev pub raw_sample : GyroAimController D R → Option (ImuRawSample D)
  raw_sample g = elim g.latest_raw_sample [ none ↦ g.pipeline.last_sample | some s ↦ some s ]

  unfoldable pub get_motion_snapshot :
      GyroAimController D R → GyroAimController D R × Option (FilteredMotion D)
  unfolding is_aim_active apply_bias process_sample
  get_motion_snapshot g =
      if not g.is_running
      then (g, none)
      else if not (is_aim_active g)
      then (g, none)
      else elim (raw_sample g) [
        | none ↦ (g, none)
        | some raw ↦
            let (f, motion) = process_sample n (apply_bias n g.calibrator raw) g.filters in
            (record g { filters = f }, some motion)
      ]

module _ {D R : Type 0} (n : Floats D) (json : BiasJson D R) where
  -- One listener of samples.
  unfoldable pub notify :
      ImuRawSample D → SampleCallback → GyroAimController D R → GyroAimController D R
  unfolding accumulate_sample
  notify s accumulates g =
      let (c, p) = accumulate_sample n json s g.calibrator g.pipeline in
      record g { calibrator = c; pipeline = p }
  notify s keeps_latest g = record g { latest_raw_sample = some s }
  notify s (calls f) g = record g {
    pipeline = record g.pipeline { sample_calls = g.pipeline.sample_calls ++ (f, s) ∷ [] };
  }

  -- The loop over the set of listeners, which leaves out those that are removed before their turn.
  unfoldable pub notify_all :
      ImuRawSample D → List SampleListener → GyroAimController D R → GyroAimController D R
  unfolding notify
  notify_all s [] g = g
  notify_all s (l ∷ ls) g =
      notify_all s ls (if is_registered l.id g.pipeline.listeners then notify s l.callback g else g)

  -- The handler, which the browser calls while it is attached.
  unfoldable pub handle_device_motion :
      ℕ → DeviceMotionEvent D → GyroAimController D R → GyroAimController D R
  unfolding read_event notify_all
  handle_device_motion micros event g =
      let s = read_event n micros event in
      if g.pipeline.attached
      then notify_all s g.pipeline.listeners
          (record g { pipeline = record g.pipeline { last_sample = some s } })
      else g

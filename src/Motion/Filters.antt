-- ===== src/Motion/Filters.antt =====
-- MotionFilters.ts: the deadzone, the smoothing and the scaling of a sample.
use lookauniversalremote.Prelude.{
  ◌≡◌, refl, if◌then◌else◌, Bool, true, false, ◌&&◌, ◌||◌, ℤ, pos, negsuc, Option,
}
use lookauniversalremote.Trackpad.State.{or_else}
use lookauniversalremote.Motion.{Floats, ImuRawSample}

pub data SmoothingPreset : Type 0 where
  no_smoothing light medium heavy : SmoothingPreset

pub data Smoothing (D : Type 0) : Type 0 where
  preset : SmoothingPreset → Smoothing D
  factor : D → Smoothing D

pub record MotionFilterOptions (D : Type 0) : Type 0 where
  pub deadzone_rad : D
  pub smoothing : Smoothing D
  pub sensitivity_x : D
  pub sensitivity_y : D
  pub invert_x : Bool
  pub invert_y : Bool
  pub roll_mix : D

-- `Partial<MotionFilterOptions>`.
pub record PartialOptions (D : Type 0) : Type 0 where
  pub deadzone_rad : Option D
  pub smoothing : Option (Smoothing D)
  pub sensitivity_x : Option D
  pub sensitivity_y : Option D
  pub invert_x : Option Bool
  pub invert_y : Option Bool
  pub roll_mix : Option D

pub record FilteredMotion (D : Type 0) : Type 0 where
  pub aim_yaw : D
  pub aim_pitch : D
  pub aim_roll : D
  pub accel_x : D
  pub accel_y : D
  pub accel_z : D
  pub timestamp_us : ℤ

pub record MotionFilters (D : Type 0) : Type 0 where
  pub options : MotionFilterOptions D
  pub prev_yaw : D
  pub prev_pitch : D
  pub prev_roll : D
  pub has_prev : Bool

module _ {D : Type 0} where
  unfoldable pub merge_options : MotionFilterOptions D → PartialOptions D → MotionFilterOptions D
  merge_options o p = record {
    deadzone_rad = or_else p.deadzone_rad o.deadzone_rad;
    smoothing = or_else p.smoothing o.smoothing;
    sensitivity_x = or_else p.sensitivity_x o.sensitivity_x;
    sensitivity_y = or_else p.sensitivity_y o.sensitivity_y;
    invert_x = or_else p.invert_x o.invert_x;
    invert_y = or_else p.invert_y o.invert_y;
    roll_mix = or_else p.roll_mix o.roll_mix;
  }

  unfoldable pub set_options : PartialOptions D → MotionFilters D → MotionFilters D
  unfolding merge_options
  set_options new f = record f { options = merge_options f.options new }

module _ {D : Type 0} (n : Floats D) where
  abbrev pub nought : D
  nought = n.decimal (pos 0) 0

  abbrev pub one : D
  one = n.decimal (pos 1) 0

  abbrev pub default_filter_options : MotionFilterOptions D
  default_filter_options = record {
    deadzone_rad = n.decimal (pos 2) 2;
    smoothing = preset light;
    sensitivity_x = one;
    sensitivity_y = one;
    invert_x = false;
    invert_y = false;
    roll_mix = n.decimal (pos 25) 2;
  }

  abbrev pub smoothing_alpha : SmoothingPreset → D
  smoothing_alpha no_smoothing = one
  smoothing_alpha light = n.decimal (pos 85) 2
  smoothing_alpha medium = n.decimal (pos 65) 2
  smoothing_alpha heavy = n.decimal (pos 45) 2

  unfoldable pub new_filters : PartialOptions D → MotionFilters D
  unfolding merge_options
  new_filters options = record {
    options = merge_options default_filter_options options;
    prev_yaw = nought;
    prev_pitch = nought;
    prev_roll = nought;
    has_prev = false;
  }

  unfoldable pub reset_filters : MotionFilters D → MotionFilters D
  reset_filters f = record f {
    prev_yaw = nought;
    prev_pitch = nought;
    prev_roll = nought;
    has_prev = false;
  }

  unfoldable pub apply_radial_deadzone : D → D → D → D × D
  apply_radial_deadzone x y deadzone =
      let mag = n.hypot x y in
      if n.less_eq mag deadzone || n.equal mag nought
      then (nought, nought)
      else let scale =
          n.div (n.sub mag deadzone)
            (n.mul mag (n.sub one (n.min_of (n.decimal (pos 99) 2) deadzone))) in
        (n.mul x scale, n.mul y scale)

  abbrev pub alpha_of : Smoothing D → D
  alpha_of (preset p) = smoothing_alpha p
  alpha_of (factor a) = n.max_of (n.decimal (pos 1) 2) (n.min_of one a)

  -- The exponential moving average of a value with the one before.
  abbrev pub average : D → D → D → D
  average alpha raw prev = n.add (n.mul alpha raw) (n.mul (n.sub one alpha) prev)

  abbrev pub sign : Bool → D
  sign invert = if invert then n.decimal (negsuc 0) 0 else one

  -- The rate around the axis of the aim after the deadzone of `processSample`.
  abbrev pub dead : D → D → D → D × D
  dead horizontal vertical deadzone_rad =
      let magnitude = n.hypot horizontal vertical in
      if n.less_eq magnitude deadzone_rad || n.equal magnitude nought
      then (nought, nought)
      else let scale =
          n.div (n.sub magnitude deadzone_rad)
            (n.mul magnitude (n.sub one (n.min_of (n.decimal (pos 99) 2) deadzone_rad))) in
        (n.mul horizontal scale, n.mul vertical scale)

  unfoldable pub process_sample :
      ImuRawSample D → MotionFilters D → MotionFilters D × FilteredMotion D
  process_sample s f =
      let o = f.options in
      let (horizontal, vertical) =
        dead (n.add s.gyro_yaw (n.mul s.gyro_roll o.roll_mix)) s.gyro_pitch o.deadzone_rad in
      let alpha = alpha_of o.smoothing in
      let smooth = f.has_prev && n.less alpha one in
      let yaw = if smooth then average alpha horizontal f.prev_yaw else horizontal in
      let pitch = if smooth then average alpha vertical f.prev_pitch else vertical in
      let roll = if smooth then average alpha s.gyro_roll f.prev_roll else s.gyro_roll in
      (
        record f { prev_yaw = yaw; prev_pitch = pitch; prev_roll = roll; has_prev = true },
        record {
          aim_yaw = n.mul (n.mul yaw o.sensitivity_x) (sign o.invert_x);
          aim_pitch = n.mul (n.mul pitch o.sensitivity_y) (sign o.invert_y);
          aim_roll = roll;
          accel_x = s.accel_x;
          accel_y = s.accel_y;
          accel_z = s.accel_z;
          timestamp_us = s.timestamp_us;
        },
      )

  -- The deadzone of a sample is that of the public helper.
  pub dead-apply_radial_deadzone :
      (x y deadzone : D) → dead x y deadzone ≡ apply_radial_deadzone x y deadzone
  unfolding apply_radial_deadzone
  dead-apply_radial_deadzone x y deadzone = refl

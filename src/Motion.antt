-- ===== src/Motion.antt =====
-- apps/web-client/src/sensors: the numbers, the samples and the pipeline's data that its classes share.
pub mod Pipeline
pub mod Filters
pub mod Bias
pub mod Calibrator
pub mod Stored
pub mod Sampling
pub mod Calibrating
pub mod Acting
pub mod Soundness
pub mod Collecting
pub mod Tied
pub mod Attached
pub mod Listeners
pub mod Controller
pub mod Sampler
use lookauniversalremote.Prelude.{ℕ, Bool, ℤ, pos, negsuc, min_ℤ, max_ℤ, List, Option}

-- A result of `Math.round`: a whole number, an infinity or NaN.
pub data Whole : Type 0 where
  finite : ℤ → Whole
  infinity minus_infinity nan : Whole

-- The source's floats, of the type `D`. `decimal m k` is the literal m / 10 ^ k; `square` is `** 2`.
pub record Floats (D : Type 0) : Type 0 where
  pub decimal : ℤ → ℕ → D
  pub pi : D
  pub add : D → D → D
  pub sub : D → D → D
  pub mul : D → D → D
  pub div : D → D → D
  pub square : D → D
  pub sqrt : D → D
  pub hypot : D → D → D
  pub min_of : D → D → D
  pub max_of : D → D → D
  pub less : D → D → Bool
  pub less_eq : D → D → Bool
  pub equal : D → D → Bool
  pub round : D → Whole

-- `Math.min(n, w)` and `Math.max(n, w)`.
abbrev pub min_whole : ℤ → Whole → Whole
min_whole n (finite z) = finite (min_ℤ n z)
min_whole n infinity = finite n
min_whole n minus_infinity = minus_infinity
min_whole n nan = nan

abbrev pub max_whole : ℤ → Whole → Whole
max_whole n (finite z) = finite (max_ℤ n z)
max_whole n infinity = infinity
max_whole n minus_infinity = finite n
max_whole n nan = nan

-- The integer that the setters of a `DataView` read: infinities and NaN are 0.
abbrev pub to_integer : Whole → ℤ
to_integer (finite z) = z
to_integer infinity = pos 0
to_integer minus_infinity = pos 0
to_integer nan = pos 0

pub record ImuRawSample (D : Type 0) : Type 0 where
  pub gyro_yaw : D
  pub gyro_pitch : D
  pub gyro_roll : D
  pub accel_x : D
  pub accel_y : D
  pub accel_z : D
  pub timestamp_us : ℤ

pub data ImuPermissionStatus : Type 0 where
  unsupported needs_permission granted denied listening error : ImuPermissionStatus

-- What a listener of samples does: it is that of a calibration, that of the controller, which keeps
-- the latest sample, or another function, with its name.
pub data SampleCallback : Type 0 where
  accumulates keeps_latest : SampleCallback
  calls : ℕ → SampleCallback

-- A listener is a new closure at each `onSample`, named by a number.
pub record SampleListener : Type 0 where
  pub id : ℕ
  pub callback : SampleCallback

-- Where the code runs: without `window`, without `DeviceMotionEvent`, with its `requestPermission`
-- or without that.
pub data Platform : Type 0 where
  no_window no_motion_event asking free : Platform

-- The pipeline with the platform: whether `devicemotion` reaches its handler, and the calls of
-- listeners. `attachable` says whether `addEventListener` returns.
pub record ImuSensorPipeline (D : Type 0) : Type 0 where
  pub status : ImuPermissionStatus
  pub listeners : List SampleListener
  pub status_listeners : List ℕ
  pub last_sample : Option (ImuRawSample D)
  pub is_running : Bool
  pub next_listener : ℕ
  pub platform : Platform
  pub attachable : Bool
  pub attached : Bool
  pub status_calls : List (ℕ × ImuPermissionStatus)
  pub sample_calls : List (ℕ × ImuRawSample D)

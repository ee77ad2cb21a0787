-- ===== src/Motion/Pipeline.antt =====
-- ImuSensorPipeline.ts: permission, starting and stopping, listeners, and the reading of an event.
use lookauniversalremote.Prelude.{
  ℕ, suc, ◌==◌, if◌then◌else◌, Bool, true, false, not, ℤ, pos, word32, signed32, List, [], ◌∷◌,
  ◌++◌, map, Option, none,
}
use lookauniversalremote.Bridge.Incoming.{add, delete}
use lookauniversalremote.Trackpad.State.{or_else}
use lookauniversalremote.Motion.{
  Floats, ImuRawSample, ImuPermissionStatus, unsupported, needs_permission, granted, denied,
  listening, error, SampleCallback, SampleListener, Platform, no_window, no_motion_event, asking,
  free, ImuSensorPipeline,
}

-- `===` on statuses.
abbrev pub status_index : ImuPermissionStatus → ℕ
status_index unsupported = 0
status_index needs_permission = 1
status_index granted = 2
status_index denied = 3
status_index listening = 4
status_index error = 5

abbrev pub is_status : ImuPermissionStatus → ImuPermissionStatus → Bool
is_status a b = status_index a == status_index b

-- What the user and the browser answer to `requestPermission`; `fails` is a rejected promise.
pub data Response : Type 0 where
  grants refuses fails : Response

-- Three numbers of an event, each of which can be missing: alpha, beta and gamma, or x, y and z.
pub record Triple (D : Type 0) : Type 0 where
  pub first : Option D
  pub second : Option D
  pub third : Option D

pub record DeviceMotionEvent (D : Type 0) : Type 0 where
  pub rotation_rate : Option (Triple D)
  pub acceleration : Option (Triple D)
  pub acceleration_including_gravity : Option (Triple D)

-- `Math.round(performance.now() * 1000) & 0xffffffff`, at the microsecond `micros`.
unfoldable pub timestamp : ℕ → ℤ
timestamp micros = signed32 (word32 (pos micros))

abbrev pub without_listener : ℕ → List SampleListener → List SampleListener
without_listener id [] = []
without_listener id (l ∷ ls) = if l.id == id then ls else l ∷ without_listener id ls

-- `'DeviceMotionEvent' in window`.
abbrev pub has_device_motion : Platform → Bool
has_device_motion no_window = false
has_device_motion no_motion_event = false
has_device_motion asking = true
has_device_motion free = true

module _ {D : Type 0} where
  unfoldable pub set_status : ImuPermissionStatus → ImuSensorPipeline D → ImuSensorPipeline D
  set_status new p = if is_status p.status new then p else record p {
    status = new;
    status_calls = p.status_calls ++ map (λ l. (l, new)) p.status_listeners;
  }

  unfoldable pub check_initial_status : ImuSensorPipeline D → ImuSensorPipeline D
  unfolding set_status
  check_initial_status p = elim p.platform [
    | no_window ↦ set_status unsupported p
    | no_motion_event ↦ set_status unsupported p
    | asking ↦ set_status needs_permission p
    | free ↦ set_status granted p
  ]

  unfoldable pub new_pipeline : Platform → Bool → ImuSensorPipeline D
  unfolding check_initial_status
  new_pipeline platform attachable = check_initial_status (record {
    status = unsupported;
    listeners = [];
    status_listeners = [];
    last_sample = none;
    is_running = false;
    next_listener = 0;
    platform = platform;
    attachable = attachable;
    attached = false;
    status_calls = [];
    sample_calls = [];
  })

  -- With the identity of the listener, for the function that removes it.
  unfoldable pub on_sample : SampleCallback → ImuSensorPipeline D → ImuSensorPipeline D × ℕ
  on_sample callback p = (
    record p {
      listeners = p.listeners ++ record { id = p.next_listener; callback = callback } ∷ [];
      next_listener = suc p.next_listener;
    },
    p.next_listener,
  )

  unfoldable pub off_sample : ℕ → ImuSensorPipeline D → ImuSensorPipeline D
  off_sample id p = record p { listeners = without_listener id p.listeners }

  unfoldable pub on_status_change : ℕ → ImuSensorPipeline D → ImuSensorPipeline D
  on_status_change l p = record p { status_listeners = add l p.status_listeners }

  unfoldable pub off_status_change : ℕ → ImuSensorPipeline D → ImuSensorPipeline D
  off_status_change l p = record p { status_listeners = delete l p.status_listeners }

  -- The status when the browser has answered.
  unfoldable pub request_permission : Response → ImuSensorPipeline D → ImuSensorPipeline D × Bool
  unfolding set_status
  request_permission answer p = elim p.platform [
    | no_window ↦ (set_status unsupported p, false)
    | no_motion_event ↦ (set_status granted p, true)
    | asking ↦ elim answer [
      | grants ↦ (set_status granted p, true)
      | refuses ↦ (set_status denied p, false)
      | fails ↦ (set_status error p, false)
    ]
    | free ↦ (set_status granted p, true)
  ]

  unfoldable pub start : ImuSensorPipeline D → ImuSensorPipeline D × Bool
  unfolding set_status
  start p =
      if p.is_running
      then (p, true)
      else if not (has_device_motion p.platform)
      then (set_status unsupported p, false)
      else if is_status p.status denied
      then (p, false)
      else if is_status p.status unsupported
      then (p, false)
      else if p.attachable
      then (set_status listening (record p { attached = true; is_running = true }), true)
      else (set_status error p, false)

  unfoldable pub stop : ImuSensorPipeline D → ImuSensorPipeline D
  unfolding set_status
  stop p =
      if not p.is_running
      then p
      else (let q = record p {
        attached = elim p.platform [ no_window ↦ p.attached | _ ↦ false ];
        is_running = false;
      } in
          if is_status q.status listening then set_status granted q else q)

  -- The sample that the handler makes of an event at the microsecond `micros`.
  unfoldable pub read_event : Floats D → ℕ → DeviceMotionEvent D → ImuRawSample D
  unfolding timestamp
  read_event n micros event =
      let zero_float = n.decimal (pos 0) 0 in
      let deg_to_rad = n.div n.pi (n.decimal (pos 180) 0) in
      let missing : Triple D = record { first = none; second = none; third = none } in
      let rot = or_else event.rotation_rate missing in
      let acc = or_else event.acceleration (or_else event.acceleration_including_gravity missing) in
      record {
        gyro_yaw = n.mul (or_else rot.first zero_float) deg_to_rad;
        gyro_pitch = n.mul (or_else rot.second zero_float) deg_to_rad;
        gyro_roll = n.mul (or_else rot.third zero_float) deg_to_rad;
        accel_x = or_else acc.first zero_float;
        accel_y = or_else acc.second zero_float;
        accel_z = or_else acc.third zero_float;
        timestamp_us = timestamp micros;
      }

-- ===== src/Motion/Acting.antt =====
-- Every operation and every event keeps the pipeline, the calibrator and the controller sound.
use lookauniversalremote.Motion.Pipeline as Pipeline
use lookauniversalremote.Motion.Pipeline.{Response, DeviceMotionEvent}

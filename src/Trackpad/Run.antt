-- ===== src/Trackpad/Run.antt =====
-- GestureRecognizer.ts: sequences of events.
use lookauniversalremote.Prelude.{ℕ, List, [], ◌∷◌}
use lookauniversalremote.Trackpad.State.{
  Numbers, PartialConfig, TouchPoint, GestureRecognizer, or_else,
}
use lookauniversalremote.Trackpad.Recognizer.{
  set_config, set_callback, fire_timeout, on_touch_start, on_touch_move,
}
use lookauniversalremote.Trackpad.Lifting.{on_touch_end}

-- What happens to a recognizer in use: touches with their times, timeouts, and new settings.
pub data Event (D : Type 0) : Type 0 where
  starts moves : List (TouchPoint D) → ℕ → Event D
  ends : List ℕ → ℕ → Event D
  times_out : Event D
  configures : PartialConfig D → Event D
  subscribes : ℕ → Event D

module _ {D : Type 0} (n : Numbers D) where
  -- An exception of `onTouchStart` leaves the state as it was.
  unfoldable pub step : Event D → GestureRecognizer D → GestureRecognizer D
  step (starts active now) s = or_else (on_touch_start n active now s) s
  step (moves active now) s = on_touch_move n active now s
  step (ends removed now) s = on_touch_end n removed now s
  step times_out s = fire_timeout s
  step (configures config) s = set_config config s
  step (subscribes k) s = set_callback k s

  abbrev pub run : List (Event D) → GestureRecognizer D → GestureRecognizer D
  run [] s = s
  run (e ∷ es) s = run es (step e s)

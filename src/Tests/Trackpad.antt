-- ===== src/Tests/Trackpad.antt =====
-- The gesture recognizer, instantiated with whole numbers.
use lookauniversalremote.Prelude.{
  ℕ, ◌≡◌, refl, arith, false, List, [], ◌∷◌, ◌++◌, All, ℤ, pos, ◌+ℤ◌, ◌-ℤ◌, min_ℤ, leb_ℤ, not, none,
  some,
}
use lookauniversalremote.Trackpad.State.{
  Numbers, PartialConfig, TouchPoint, GestureRecognizer, tap_release, two_finger_release,
  new_recognizer, merge,
}
use lookauniversalremote.Trackpad.Recognizer.{
  buttons, on_touch_start, on_touch_move, fire_timeout, start_drag, emit, handle_tap,
  handle_two_finger_tap,
}
use lookauniversalremote.Trackpad.Lifting.{on_touch_end, lift_all, lift, detect_tap, end_touches}
use lookauniversalremote.Trackpad.Run.{Event, starts, moves, ends, times_out, step, run}
use lookauniversalremote.Trackpad.Held.{pressed}
use lookauniversalremote.Trackpad.Release.{run-pressed}
use lookauniversalremote.Trackpad.Outputs.{IsDecoded, output_payload, run-IsDecoded}
use lookauniversalremote.Trackpad.Taps.{with_touches, two_fingers-clicks}
use lookauniversalremote.Tests.Samples.{ascii_codec}

-- Integers for numbers: a product keeps its right factor's sign, halves and fifths are cut.
abbrev integers : Numbers ℤ
integers = record {
  whole = λ v. v;
  half = pos 1;
  four_fifths = pos 1;
  add = λ a b. a +ℤ b;
  sub = λ a b. a -ℤ b;
  mul = λ a b. b;
  div = λ a b. a;
  hypot = λ a b. pos 1;
  min_of = min_ℤ;
  less = λ a b. not (leb_ℤ b a);
  trunc = λ v. v;
}

abbrev no_config : PartialConfig ℤ
no_config = record {
  sensitivity = none;
  acceleration = none;
  natural_scroll = none;
  scroll_sensitivity = none;
  tap_to_click = none;
  double_tap_drag = none;
}

abbrev point : ℕ → TouchPoint ℤ
point i = record { id = i; x = pos 100; y = pos 100 }

-- A tap, and a drag by a second touch soon after it.
abbrev tap_and_drag : List (Event ℤ)
tap_and_drag =
    starts (point 1 ∷ []) 1000
    ∷ ends (1 ∷ []) 1050
    ∷ times_out
    ∷ starts (point 2 ∷ []) 1150
    ∷ moves (point 2 ∷ []) 1170
    ∷ ends (2 ∷ []) 1250
    ∷ []

run-pressed_example :
    let s = run integers tap_and_drag (new_recognizer integers no_config (some 4)) in
    (s.is_dragging ≡ false) × (pressed s.emitted ≡ 0)
unfolding step new_recognizer merge on_touch_start on_touch_move on_touch_end fire_timeout
    start_drag emit lift_all lift detect_tap handle_tap handle_two_finger_tap end_touches ◌+ℤ◌ min_ℤ
run-pressed_example = run-pressed integers tap_and_drag no_config (some 4) refl refl

run-IsDecoded_example :
    All
      (λ e. IsDecoded ascii_codec (pos 7) (pos 0) (output_payload 4 e.1))
      (run integers tap_and_drag (new_recognizer integers no_config (some 4))).emitted
run-IsDecoded_example =
    run-IsDecoded integers tap_and_drag no_config (some 4) ascii_codec (pos 7) (pos 0) 4
      (omega arith)

abbrev ready : GestureRecognizer ℤ
ready = new_recognizer integers no_config (some 4)

two_fingers-clicks_example :
    let s' =
      run integers
        (starts (point 1 ∷ point 2 ∷ []) 1000 ∷ ends (1 ∷ []) 1060 ∷ ends (2 ∷ []) 1080 ∷ [])
        (with_touches integers [] 4 ready) in
    (s'.emitted ≡ [] ++ (4, buttons 2) ∷ (4, buttons 9) ∷ [])
    × (s'.timeouts ≡ [] ++ two_finger_release ∷ tap_release ∷ [])
unfolding new_recognizer merge
two_fingers-clicks_example =
    two_fingers-clicks integers (point 1) (point 2) 1000 1060 1080 4 ready (omega arith) refl refl
      refl (omega arith) (omega arith)

-- ===== src/Trackpad/Lifting.antt =====
-- GestureRecognizer.ts: fingers are lifted, and the reset.
use lookauniversalremote.Prelude.{
  ℕ, ◌+◌, ◌==◌, ltb, if◌then◌else◌, false, not, ◌&&◌, pos, List, [], ◌∷◌, length, none, some,
}
use lookauniversalremote.Trackpad.State.{
  Numbers, TouchState, GestureRecognizer, get_touch, delete_touch,
}
use lookauniversalremote.Trackpad.Recognizer.{emit, buttons, handle_tap, handle_two_finger_tap}

module _ {D : Type 0} (n : Numbers D) where
  -- Taps: `count` is the number of touches before any of them was lifted.
  unfoldable pub detect_tap : ℕ → TouchState D → ℕ → GestureRecognizer D → GestureRecognizer D
  unfolding handle_tap handle_two_finger_tap
  detect_tap count u now s =
      if count == 1 && not s.is_dragging
      then (if ltb now (u.start_time + 200)
            && (n.less u.total_distance (n.whole (pos 12)) && s.config.tap_to_click)
          then handle_tap u.start_x u.start_y now s
          else s)
      else if count == 2
      then (if ltb now (u.start_time + 250) && n.less u.total_distance (n.whole (pos 15))
          then handle_two_finger_tap s
          else s)
      else s

  unfoldable pub lift : ℕ → ℕ → ℕ → GestureRecognizer D → GestureRecognizer D
  unfolding detect_tap
  lift count now id s = elim (get_touch id s.touches) [
    | none ↦ s
    | some u ↦ let t = detect_tap count u now s in record t { touches = delete_touch id t.touches }
  ]

  unfoldable pub lift_all : ℕ → ℕ → List ℕ → GestureRecognizer D → GestureRecognizer D
  unfolding lift
  lift_all count now [] s = s
  lift_all count now (id ∷ ids) s = lift_all count now ids (lift count now id s)

  abbrev without_subpixels : GestureRecognizer D → GestureRecognizer D
  without_subpixels s = record s {
    subpixel_dx = n.whole (pos 0);
    subpixel_dy = n.whole (pos 0);
    subpixel_scroll_v = n.whole (pos 0);
    subpixel_scroll_h = n.whole (pos 0);
  }

  -- What `onTouchEnd` does when the touches are gone.
  unfoldable pub end_touches : GestureRecognizer D → GestureRecognizer D
  unfolding emit
  end_touches s =
      let t =
        (if s.is_dragging && length s.touches == 0
          then emit (buttons 0) (record s { is_dragging = false })
          else s) in
      if length t.touches == 0 then without_subpixels t else t

  unfoldable pub on_touch_end : List ℕ → ℕ → GestureRecognizer D → GestureRecognizer D
  unfolding lift_all end_touches
  on_touch_end removed now s = end_touches (lift_all (length s.touches) now removed s)

  unfoldable pub reset : GestureRecognizer D → GestureRecognizer D
  reset s = without_subpixels (record s { touches = []; is_dragging = false })

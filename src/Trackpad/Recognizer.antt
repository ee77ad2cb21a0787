-- ===== src/Trackpad/Recognizer.antt =====
-- GestureRecognizer.ts: the operations.
use lookauniversalremote.Prelude.{
  ℕ, ◌+◌, ◌-◌, max, ◌==◌, ltb, if◌then◌else◌, Bool, true, not, ◌&&◌, ◌||◌, ℤ, pos, negsuc, max_ℤ,
  min_ℤ, List, [], ◌∷◌, ◌++◌, length, Option, none, some,
}
use lookauniversalremote.Trackpad.State.{
  Numbers, GestureConfig, PartialConfig, TouchPoint, TouchpadOutput, TouchState, Release,
  tap_release, two_finger_release, GestureRecognizer, get_touch, set_touch, merge,
}

-- An output with no movement.
abbrev pub buttons : ℕ → TouchpadOutput
buttons mask = record {
  dx = pos 0;
  dy = pos 0;
  scroll_v = pos 0;
  scroll_h = pos 0;
  buttons_mask = mask;
}

-- `Math.max(low, Math.min(high, n))`.
abbrev pub clamp : ℤ → ℤ → ℤ → ℤ
clamp low high n = max_ℤ low (min_ℤ high n)

-- A movement of the pointer, and of the wheel.
unfoldable pub pointer_output : ℤ → ℤ → Bool → TouchpadOutput
pointer_output int_dx int_dy dragging = record {
  dx = clamp (negsuc 32767) (pos 32767) int_dx;
  dy = clamp (negsuc 32767) (pos 32767) int_dy;
  scroll_v = pos 0;
  scroll_h = pos 0;
  buttons_mask = if dragging then 1 else 0;
}

unfoldable pub wheel_output : ℤ → ℤ → TouchpadOutput
wheel_output int_v int_h = record {
  dx = pos 0;
  dy = pos 0;
  scroll_v = clamp (negsuc 127) (pos 127) int_v;
  scroll_h = clamp (negsuc 127) (pos 127) int_h;
  buttons_mask = 0;
}

-- `n !== 0`.
abbrev pub is_nonzero : ℤ → Bool
is_nonzero (pos n) = not (n == 0)
is_nonzero (negsuc n) = true

module _ {D : Type 0} where
  unfoldable pub emit : TouchpadOutput → GestureRecognizer D → GestureRecognizer D
  emit output s = elim s.callback [
    | none ↦ s
    | some k ↦ record s { emitted = s.emitted ++ (k, output) ∷ [] }
  ]

  unfoldable pub set_config : PartialConfig D → GestureRecognizer D → GestureRecognizer D
  unfolding merge
  set_config config s = record s { config = merge s.config config }

  unfoldable pub set_callback : ℕ → GestureRecognizer D → GestureRecognizer D
  set_callback k s = record s { callback = some k }

  unfoldable pub handle_tap : D → D → ℕ → GestureRecognizer D → GestureRecognizer D
  unfolding emit
  handle_tap x y now s =
      let t = emit (buttons 9) (record s { last_tap_time = now; last_tap_x = x; last_tap_y = y }) in
      record t { timeouts = t.timeouts ++ tap_release ∷ [] }

  unfoldable pub handle_two_finger_tap : GestureRecognizer D → GestureRecognizer D
  unfolding emit
  handle_two_finger_tap s =
      let t = emit (buttons 2) s in record t { timeouts = t.timeouts ++ two_finger_release ∷ [] }

  -- The callback of a timeout.
  abbrev pub release : Release → GestureRecognizer D → GestureRecognizer D
  release tap_release s = if s.is_dragging then s else emit (buttons 0) s
  release two_finger_release s = emit (buttons 0) s

  -- The timeout that was set first runs.
  unfoldable pub fire_timeout : GestureRecognizer D → GestureRecognizer D
  unfolding emit
  fire_timeout s = elim s.timeouts [ [] ↦ s | r ∷ rs ↦ release r (record s { timeouts = rs }) ]

module _ {D : Type 0} (n : Numbers D) where
  abbrev pub begin_touch : ℕ → TouchPoint D → TouchState D
  begin_touch now t = record {
    id = t.id;
    start_x = t.x;
    start_y = t.y;
    last_x = t.x;
    last_y = t.y;
    start_time = now;
    last_time = now;
    total_distance = n.whole (pos 0);
  }

  abbrev pub begin_touches : List (TouchPoint D) → ℕ → List (TouchState D) → List (TouchState D)
  begin_touches [] now touches = touches
  begin_touches (t ∷ ts) now touches = begin_touches ts now (set_touch (begin_touch now t) touches)

  -- The check for a double tap, at the first of the active touches.
  unfoldable pub start_drag : TouchPoint D → ℕ → GestureRecognizer D → GestureRecognizer D
  unfolding emit
  start_drag touch now s =
      let distance = n.hypot (n.sub touch.x s.last_tap_x) (n.sub touch.y s.last_tap_y) in
      if ltb now (s.last_tap_time + 300) && n.less distance (n.whole (pos 30))
      then emit (buttons 1) (record s { is_dragging = true })
      else s

  -- `none`: the code throws, since there is no first touch.
  unfoldable pub on_touch_start :
      List (TouchPoint D) → ℕ → GestureRecognizer D → Option (GestureRecognizer D)
  unfolding start_drag
  on_touch_start active now s =
      let t = record s { touches = begin_touches active now s.touches } in
      if length t.touches == 1 && t.config.double_tap_drag
      then elim active [ [] ↦ none | touch ∷ _ ↦ some (start_drag touch now t) ]
      else some t

  -- The way a touch has come since its last position, and its state at the new one.
  abbrev shift : TouchPoint D → TouchState D → D × D
  shift t u = (n.sub t.x u.last_x, n.sub t.y u.last_y)

  unfoldable pub follow : TouchPoint D → D → ℕ → List (TouchState D) → List (TouchState D)
  follow t distance now touches = elim (get_touch t.id touches) [
    | none ↦ touches
    | some u ↦
        set_touch
          (record u {
            total_distance = n.add u.total_distance distance;
            last_x = t.x;
            last_y = t.y;
            last_time = now;
          })
          touches
  ]

  -- The factor of the movement: the sensitivity, and the acceleration by the speed.
  unfoldable pub pointer_scale : GestureConfig D → D → ℕ → D
  pointer_scale c distance dt =
      let speed = n.div distance (n.whole (pos dt)) in
      let factor =
        n.add (n.whole (pos 1))
          (n.mul c.acceleration (n.min_of (n.div speed n.half) (n.whole (pos 3)))) in
      n.mul c.sensitivity factor

  -- What one finger at the state `u` does that has moved to `t`.
  unfoldable pub move_pointer :
      TouchPoint D → TouchState D → ℕ → GestureRecognizer D → GestureRecognizer D
  unfolding emit follow pointer_scale
  move_pointer t u now s =
      let (raw_dx, raw_dy) = shift t u in
      let distance = n.hypot raw_dx raw_dy in
      let scale = pointer_scale s.config distance (max 1 (now - u.last_time)) in
      let target_dx = n.add (n.mul raw_dx scale) s.subpixel_dx in
      let target_dy = n.add (n.mul raw_dy scale) s.subpixel_dy in
      let int_dx = n.trunc target_dx in
      let int_dy = n.trunc target_dy in
      let moved = record s {
        touches = follow t distance now s.touches;
        subpixel_dx = n.sub target_dx (n.whole int_dx);
        subpixel_dy = n.sub target_dy (n.whole int_dy);
      } in
      if is_nonzero int_dx || is_nonzero int_dy
      then emit (pointer_output int_dx int_dy s.is_dragging) moved
      else moved

  -- What two fingers do.
  unfoldable pub scroll :
      TouchPoint D
      → TouchState D
      → TouchPoint D
      → TouchState D
      → ℕ
      → GestureRecognizer D
      → GestureRecognizer D
  unfolding emit follow
  scroll t₁ u₁ t₂ u₂ now s =
      let (raw_dx₁, raw_dy₁) = shift t₁ u₁ in
      let (raw_dx₂, raw_dy₂) = shift t₂ u₂ in
      let avg_dx = n.div (n.add raw_dx₁ raw_dx₂) (n.whole (pos 2)) in
      let avg_dy = n.div (n.add raw_dy₁ raw_dy₂) (n.whole (pos 2)) in
      let direction = n.whole (if s.config.natural_scroll then pos 1 else negsuc 0) in
      let scale = n.mul (n.mul s.config.scroll_sensitivity n.half) direction in
      let target_v = n.add (n.mul avg_dy scale) s.subpixel_scroll_v in
      let target_h = n.add (n.mul avg_dx scale) s.subpixel_scroll_h in
      let int_v = n.trunc target_v in
      let int_h = n.trunc target_h in
      let moved = record s {
        touches =
            follow t₂ (n.hypot raw_dx₂ raw_dy₂) now
              (follow t₁ (n.hypot raw_dx₁ raw_dy₁) now s.touches);
        subpixel_scroll_v = n.sub target_v (n.whole int_v);
        subpixel_scroll_h = n.sub target_h (n.whole int_h);
      } in
      if is_nonzero int_v || is_nonzero int_h then emit (wheel_output int_v int_h) moved else moved

  -- One or two active touches that are known; otherwise nothing happens.
  unfoldable pub on_touch_move : List (TouchPoint D) → ℕ → GestureRecognizer D → GestureRecognizer D
  unfolding move_pointer scroll
  on_touch_move (t ∷ []) now s = elim (get_touch t.id s.touches) [
    | none ↦ s
    | some u ↦ move_pointer t u now s
  ]
  on_touch_move (t₁ ∷ t₂ ∷ []) now s = elim (get_touch t₁.id s.touches) [
    | none ↦ s
    | some u₁ ↦ elim (get_touch t₂.id s.touches) [ none ↦ s | some u₂ ↦ scroll t₁ u₁ t₂ u₂ now s ]
  ]
  on_touch_move _ now s = s

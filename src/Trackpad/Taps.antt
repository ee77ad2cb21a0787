-- ===== src/Trackpad/Taps.antt =====
-- GestureRecognizer.ts: a tap with two fingers that are lifted one after the other.
use lookauniversalremote.Prelude.{
  ℕ, ◌≡◌, ◌≢◌, ◌∙◌, refl, ◌+◌, ◌<◌, ◌==◌, lt→ltb, true, false, List, [], ◌∷◌, ◌++◌, some, arith,
  pos,
}
use mathlib.Core.List.{append_assoc}
use lookauniversalremote.Trackpad.State.{
  Numbers, TouchPoint, TouchState, GestureRecognizer, tap_release, two_finger_release,
}
use lookauniversalremote.Trackpad.Recognizer.{
  buttons, emit, handle_tap, handle_two_finger_tap, begin_touch, on_touch_start,
}
use lookauniversalremote.Trackpad.Lifting.{detect_tap, lift, lift_all, end_touches, on_touch_end}
use lookauniversalremote.Trackpad.Run.{starts, ends, step, run}

module _ {D : Type 0} (n : Numbers D) where
  -- With these fingers down, the callback `k` and no drag.
  abbrev pub with_touches : List (TouchState D) → ℕ → GestureRecognizer D → GestureRecognizer D
  with_touches ts k s = record s { touches = ts; callback = some k; is_dragging = false }

  both_start :
      (a b : TouchPoint D) (t₀ k : ℕ) (s : GestureRecognizer D)
      → a.id ≢ b.id
      → step n (starts (a ∷ b ∷ []) t₀) (with_touches [] k s)
        ≡ with_touches (begin_touch n t₀ a ∷ begin_touch n t₀ b ∷ []) k s
  unfolding step on_touch_start
  both_start a b t₀ k s differ =
      let apart : (a.id == b.id) ≡ false = ground arith in rw (apart, on_touch_start) refl

  first_ends :
      (u v : TouchState D) (t k : ℕ) (s : GestureRecognizer D)
      → t < u.start_time + 250
      → n.less u.total_distance (n.whole (pos 15)) ≡ true
      → step n (ends (u.id ∷ []) t) (with_touches (u ∷ v ∷ []) k s)
        ≡ record (with_touches (v ∷ []) k s) {
          timeouts = s.timeouts ++ two_finger_release ∷ [];
          emitted = s.emitted ++ (k, buttons 2) ∷ [];
        }
  unfolding step on_touch_end lift_all lift detect_tap handle_two_finger_tap emit end_touches
  first_ends u v t k s soon small =
      let same : (u.id == u.id) ≡ true = ground arith in
      rw (same, lt→ltb t (u.start_time + 250) soon, small, on_touch_end, lift_all, lift, detect_tap)
        (rw same refl)

  -- The clicks, without the rest of the state.
  second_ends :
      (v : TouchState D) (t k : ℕ) (s : GestureRecognizer D)
      → t < v.start_time + 200
      → n.less v.total_distance (n.whole (pos 12)) ≡ true
      → s.config.tap_to_click ≡ true
      → let s' = step n (ends (v.id ∷ []) t) (with_touches (v ∷ []) k s) in
        (s'.emitted ≡ s.emitted ++ (k, buttons 9) ∷ [])
        × (s'.timeouts ≡ s.timeouts ++ tap_release ∷ [])
  unfolding step on_touch_end lift_all lift detect_tap handle_tap emit end_touches
  second_ends v t k s soon small taps =
      let same : (v.id == v.id) ≡ true = ground arith in
      rw
        (
          same,
          lt→ltb t (v.start_time + 200) soon,
          small,
          taps,
          on_touch_end,
          lift_all,
          lift,
          detect_tap,
        )
        (rw same (refl, refl))

  -- A recognizer with the callback `k` and tap-to-click, no finger down and no drag: two fingers come
  -- down and are lifted one after the other, both within 200 ms. Besides a click of the right button
  -- it emits a click of the left button.
  pub two_fingers-clicks :
      (a b : TouchPoint D) (t₀ t₁ t₂ k : ℕ) (s : GestureRecognizer D)
      → a.id ≢ b.id
      → s.config.tap_to_click ≡ true
      → n.less (n.whole (pos 0)) (n.whole (pos 12)) ≡ true
      → n.less (n.whole (pos 0)) (n.whole (pos 15)) ≡ true
      → t₁ < t₀ + 200
      → t₂ < t₀ + 200
      → let s' =
          run n
            (starts (a ∷ b ∷ []) t₀ ∷ ends (a.id ∷ []) t₁ ∷ ends (b.id ∷ []) t₂ ∷ [])
            (with_touches [] k s) in
        (s'.emitted ≡ s.emitted ++ (k, buttons 2) ∷ (k, buttons 9) ∷ [])
        × (s'.timeouts ≡ s.timeouts ++ two_finger_release ∷ tap_release ∷ [])
  two_fingers-clicks a b t₀ t₁ t₂ k s differ taps small₁₂ small₁₅ soon₁ soon₂ =
      let both = both_start a b t₀ k s differ in
      let right =
        first_ends (begin_touch n t₀ a) (begin_touch n t₀ b) t₁ k s (omega arith) small₁₅ in
      let s₁ = record s {
        timeouts = s.timeouts ++ two_finger_release ∷ [];
        emitted = s.emitted ++ (k, buttons 2) ∷ [];
      } in
      let (clicks, timeouts) = second_ends (begin_touch n t₀ b) t₂ k s₁ soon₂ small₁₂ taps in
      rw (both, right)
        (
          clicks ∙ append_assoc s.emitted ((k, buttons 2) ∷ []) ((k, buttons 9) ∷ []),
          timeouts ∙ append_assoc s.timeouts (two_finger_release ∷ []) (tap_release ∷ []),
        )

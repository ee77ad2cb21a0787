-- ===== src/Trackpad/Release.antt =====
-- GestureRecognizer.ts: the button that a touch presses is released.
use lookauniversalremote.Prelude.{
  ℕ, ◌≡◌, refl, inl, inr, false, List, [], ◌∷◌, length, Option, arith, Option-cases,
}
use lookauniversalremote.Trackpad.State.{
  Numbers, PartialConfig, TouchPoint, GestureRecognizer, get_touch, new_recognizer,
}
use lookauniversalremote.Trackpad.Recognizer.{set_config, set_callback, on_touch_move}
use lookauniversalremote.Trackpad.Lifting.{lift_all, on_touch_end}
use lookauniversalremote.Trackpad.Run.{
  Event, starts, moves, ends, times_out, configures, subscribes, step, run,
}
use lookauniversalremote.Trackpad.Held.{
  pressed, IsHeld, IsDown, fire_timeout-IsHeld, on_touch_start-IsHeld, move_pointer-IsHeld,
  scroll-IsHeld, lift_all-IsHeld, end_touches-IsHeld,
}

module _ {D : Type 0} (n : Numbers D) where
  on_touch_move-IsHeld :
      (active : List (TouchPoint D)) (now : ℕ) (s : GestureRecognizer D)
      → IsHeld s
      → IsDown s
      → IsHeld (on_touch_move n active now s) × IsDown (on_touch_move n active now s)
  unfolding on_touch_move
  on_touch_move-IsHeld [] now s h d = (h, d)
  on_touch_move-IsHeld (t ∷ []) now s h d = elim (Option-cases (get_touch t.id s.touches)) [
    | inl unknown ↦ rw (unknown, on_touch_move) (h, d)
    | inr (u, known) ↦ rw (known, on_touch_move) (move_pointer-IsHeld n t u now s h d)
  ]
  on_touch_move-IsHeld (t₁ ∷ t₂ ∷ []) now s h d = elim (Option-cases (get_touch t₁.id s.touches)) [
    | inl unknown ↦ rw (unknown, on_touch_move) (h, d)
    | inr (u₁, known₁) ↦ elim (Option-cases (get_touch t₂.id s.touches)) [
      | inl unknown ↦ rw (known₁, unknown, on_touch_move) (h, d)
      | inr (u₂, known₂) ↦
          rw (known₁, known₂, on_touch_move) (scroll-IsHeld n t₁ u₁ t₂ u₂ now s h d)
    ]
  ]
  on_touch_move-IsHeld (_ ∷ _ ∷ _ ∷ _) now s h d = (h, d)

  step-IsHeld :
      (e : Event D) (s : GestureRecognizer D)
      → IsHeld s
      → IsDown s
      → IsHeld (step n e s) × IsDown (step n e s)
  unfolding step on_touch_end set_config set_callback
  step-IsHeld (starts active now) s h d = on_touch_start-IsHeld n active now s h d
  step-IsHeld (moves active now) s h d = on_touch_move-IsHeld active now s h d
  step-IsHeld (ends removed now) s h d =
      end_touches-IsHeld n (lift_all n (length s.touches) now removed s)
        (lift_all-IsHeld n (length s.touches) now removed s h)
  step-IsHeld times_out s h d = fire_timeout-IsHeld s h d
  step-IsHeld (configures config) s h d = (record { heard = h.heard; held = h.held }, d)
  step-IsHeld (subscribes k) s h d = (record { heard = inr (k, refl); held = h.held }, d)

  run-IsHeld :
      (es : List (Event D)) (s : GestureRecognizer D)
      → IsHeld s
      → IsDown s
      → IsHeld (run n es s) × IsDown (run n es s)
  run-IsHeld [] s h d = (h, d)
  run-IsHeld (e ∷ es) s h d = let (h', d') = step-IsHeld e s h d in run-IsHeld es (step n e s) h' d'

  -- Over any sequence of touches, movements, lifted fingers, timeouts and changes of the settings and
  -- the callback, when no finger is down and no timeout is pending the recognizer is not dragging and
  -- the last output has left no button pressed.
  pub run-pressed :
      (es : List (Event D)) (config : PartialConfig D) (callback : Option ℕ)
      → (run n es (new_recognizer n config callback)).touches ≡ []
      → (run n es (new_recognizer n config callback)).timeouts ≡ []
      → let s = run n es (new_recognizer n config callback) in
        (s.is_dragging ≡ false) × (pressed s.emitted ≡ 0)
  unfolding new_recognizer
  run-pressed es config callback lifted quiet =
      let s = new_recognizer n config callback in
      let start : IsHeld s = record { heard = inl refl; held = inl refl } in
      let (h, d) = run-IsHeld es s start (inl refl) in ground arith

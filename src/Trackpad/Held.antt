-- ===== src/Trackpad/Held.antt =====
-- GestureRecognizer.ts: what holds a pressed button, for each operation.
use lookauniversalremote.Prelude.{
  ℕ, ◌≡◌, refl, ◌⊎◌, inl, inr, if◌then◌else◌, Bool, true, false, ℤ, List, [], ◌∷◌, ◌++◌, length,
  Option, none, some, arith, ◌<◌, length-append, Option-cases,
}
use lookauniversalremote.Trackpad.State.{
  Numbers, TouchPoint, TouchpadOutput, TouchState, Release, tap_release, two_finger_release,
  GestureRecognizer, get_touch, set_touch, or_else,
}
use lookauniversalremote.Trackpad.Recognizer.{
  buttons, pointer_output, wheel_output, begin_touch, emit, handle_tap, handle_two_finger_tap,
  release, fire_timeout, begin_touches, start_drag, follow, move_pointer, scroll, on_touch_start,
}
use lookauniversalremote.Trackpad.Lifting.{detect_tap, lift, lift_all, end_touches}

-- The buttons that the last output has left pressed.
abbrev pub pressed : List (ℕ × TouchpadOutput) → ℕ
pressed [] = 0
pressed ((k, o) ∷ []) = o.buttons_mask
pressed (_ ∷ o ∷ os) = pressed (o ∷ os)

pressed_last :
    (os : List (ℕ × TouchpadOutput)) (k : ℕ) (o : TouchpadOutput)
    → pressed (os ++ (k, o) ∷ []) ≡ o.buttons_mask
pressed_last [] k o = refl
pressed_last (_ ∷ []) k o = refl
pressed_last (_ ∷ p ∷ os) k o = pressed_last (p ∷ os) k o

pointer_output-mask :
    (x y : ℤ) (dragging : Bool)
    → ((pointer_output x y dragging).buttons_mask ≡ 0) ⊎ (dragging ≡ true)
unfolding pointer_output
pointer_output-mask x y true = inr refl
pointer_output-mask x y false = inl refl

module _ {D : Type 0} where
  -- A pressed button has a callback that was told of it, and is held by a drag or waits for a timeout.
  pub record IsHeld (s : GestureRecognizer D) : Type 0 where
    pub heard : (pressed s.emitted ≡ 0) ⊎ ((k : ℕ) × (s.callback ≡ some k))
    pub held : (pressed s.emitted ≡ 0) ⊎ ((s.is_dragging ≡ true) ⊎ (0 < length s.timeouts))

  -- A drag has a finger down.
  abbrev pub IsDown : GestureRecognizer D → Type 0
  IsDown s = (s.is_dragging ≡ false) ⊎ (0 < length s.touches)

  -- What `emit` does to a state whose pressed button was heard of.
  record IsEmitted (o : TouchpadOutput) (s t : GestureRecognizer D) : Type 0 where
    heard : (pressed t.emitted ≡ 0) ⊎ ((k : ℕ) × (t.callback ≡ some k))
    last : (pressed t.emitted ≡ o.buttons_mask) ⊎ (pressed t.emitted ≡ 0)
    drag_kept : t.is_dragging ≡ s.is_dragging
    timeouts_kept : t.timeouts ≡ s.timeouts
    touches_kept : t.touches ≡ s.touches

  emit-IsEmitted :
      (o : TouchpadOutput) (s : GestureRecognizer D)
      → (pressed s.emitted ≡ 0) ⊎ ((k : ℕ) × (s.callback ≡ some k))
      → IsEmitted o s (emit o s)
  unfolding emit
  emit-IsEmitted o s h = by_callback s.callback s h
    where
      by_callback :
          (c : Option ℕ) (s : GestureRecognizer D)
          → (pressed s.emitted ≡ 0) ⊎ ((k : ℕ) × (c ≡ some k))
          → IsEmitted o (record s { callback = c }) (emit o (record s { callback = c }))
      by_callback none s (inl none_pressed) = ground arith
      by_callback none s (inr (k, is)) = absurd (cc)
      by_callback (some k) s h = record {
        heard = inr (k, refl);
        last = inl (pressed_last s.emitted k o);
        drag_kept = refl;
        timeouts_kept = refl;
        touches_kept = refl;
      }

  -- An output with no button pressed, or while the state holds one.
  emit-IsHeld :
      (o : TouchpadOutput) (s : GestureRecognizer D)
      → (pressed s.emitted ≡ 0) ⊎ ((k : ℕ) × (s.callback ≡ some k))
      → (o.buttons_mask ≡ 0) ⊎ ((s.is_dragging ≡ true) ⊎ (0 < length s.timeouts))
      → IsHeld (emit o s) × IsEmitted o s (emit o s)
  emit-IsHeld o s heard holds = let done = emit-IsEmitted o s heard in (ground arith, done)

  release-IsHeld :
      (r : Release) (rs : List Release) (s : GestureRecognizer D)
      → IsHeld s
      → let t = release r (record s { timeouts = rs }) in
        IsHeld t × ((t.touches ≡ s.touches) × (t.is_dragging ≡ s.is_dragging))
  release-IsHeld tap_release rs s h =
      ground (arith, emit-IsHeld (buttons 0) (record s { timeouts = rs }) h.heard (inl refl))
  release-IsHeld two_finger_release rs s h =
      ground (arith, emit-IsHeld (buttons 0) (record s { timeouts = rs }) h.heard (inl refl))

  pub fire_timeout-IsHeld :
      (s : GestureRecognizer D)
      → IsHeld s
      → IsDown s
      → IsHeld (fire_timeout s) × IsDown (fire_timeout s)
  unfolding fire_timeout
  fire_timeout-IsHeld s h d = by_timeouts s.timeouts s h d
    where
      by_timeouts :
          (rs : List Release) (s : GestureRecognizer D)
          → let u = record s { timeouts = rs } in
            IsHeld u → IsDown u → IsHeld (fire_timeout u) × IsDown (fire_timeout u)
      by_timeouts [] s h d = (h, d)
      by_timeouts (r ∷ rs) s h d =
          ground (arith, release-IsHeld r rs (record s { timeouts = r ∷ rs }) h)

  -- Taps set their timeout.
  tap-IsHeld :
      (o : TouchpadOutput) (r : Release) (s : GestureRecognizer D)
      → IsHeld s
      → let t = emit o s in IsHeld (record t { timeouts = t.timeouts ++ r ∷ [] })
  tap-IsHeld o r s h =
      let done = emit-IsEmitted o s h.heard in
      ground (arith, length-append (emit o s).timeouts (r ∷ []))

  detect_tap-IsHeld :
      (n : Numbers D) (count : ℕ) (u : TouchState D) (now : ℕ) (s : GestureRecognizer D)
      → IsHeld s
      → IsHeld (detect_tap n count u now s)
  unfolding detect_tap handle_tap handle_two_finger_tap
  detect_tap-IsHeld n count u now s h =
      let tapped = record s {
        last_tap_time = now;
        last_tap_x = u.start_x;
        last_tap_y = u.start_y;
      } in
      let kept : IsHeld tapped = ground arith in
      let tap = tap-IsHeld (buttons 9) tap_release tapped kept in
      let both = tap-IsHeld (buttons 2) two_finger_release s h in ground arith

  pub lift_all-IsHeld :
      (n : Numbers D) (count now : ℕ) (ids : List ℕ) (s : GestureRecognizer D)
      → IsHeld s
      → IsHeld (lift_all n count now ids s)
  unfolding lift_all lift
  lift_all-IsHeld n count now [] s h = h
  lift_all-IsHeld n count now (id ∷ ids) s h =
      lift_all-IsHeld n count now ids (lift n count now id s)
        (elim (Option-cases (get_touch id s.touches)) [
          | inl unknown ↦ rw (unknown, lift) h
          | inr (u, known) ↦ rw (known, lift) (ground (arith, detect_tap-IsHeld n count u now s h))
        ])

  pub end_touches-IsHeld :
      (n : Numbers D) (s : GestureRecognizer D)
      → IsHeld s
      → IsHeld (end_touches n s) × IsDown (end_touches n s)
  unfolding end_touches
  end_touches-IsHeld n s h =
      ground (arith, emit-IsHeld (buttons 0) (record s { is_dragging = false }) h.heard (inl refl))

  length-set_touch : (t : TouchState D) (ts : List (TouchState D)) → 0 < length (set_touch t ts)
  length-set_touch t [] = omega arith
  length-set_touch t (u ∷ us) = ground arith

  length-begin_touches :
      (n : Numbers D) (active : List (TouchPoint D)) (now : ℕ) (ts : List (TouchState D))
      → 0 < length ts
      → 0 < length (begin_touches n active now ts)
  length-begin_touches n [] now ts h = h
  length-begin_touches n (t ∷ active) now ts h =
      length-begin_touches n active now _ (length-set_touch _ ts)

  length-follow :
      (n : Numbers D) (t : TouchPoint D) (d : D) (now : ℕ) (ts : List (TouchState D))
      → 0 < length ts
      → 0 < length (follow n t d now ts)
  unfolding follow
  length-follow n t d now ts h = elim (Option-cases (get_touch t.id ts)) [
    | inl unknown ↦ rw (unknown, follow) h
    | inr (u, known) ↦ rw (known, follow) (length-set_touch _ ts)
  ]

  -- What an operation on touches that are there does.
  start_drag-IsHeld :
      (n : Numbers D) (t : TouchPoint D) (now : ℕ) (s : GestureRecognizer D)
      → 0 < length s.touches
      → IsHeld s
      → IsHeld (start_drag n t now s) × IsDown (start_drag n t now s)
  unfolding start_drag
  start_drag-IsHeld n t now s down h =
      ground
        (arith, emit-IsHeld (buttons 1) (record s { is_dragging = true }) h.heard (inr (inl refl)))

  pub on_touch_start-IsHeld :
      (n : Numbers D) (active : List (TouchPoint D)) (now : ℕ) (s : GestureRecognizer D)
      → IsHeld s
      → IsDown s
      → let t = or_else (on_touch_start n active now s) s in IsHeld t × IsDown t
  unfolding on_touch_start
  on_touch_start-IsHeld n [] now s h d = ground arith
  on_touch_start-IsHeld n (t ∷ ts) now s h d =
      let down =
        length-begin_touches n ts now _ (length-set_touch (begin_touch n now t) s.touches) in
      let begun = record s { touches = begin_touches n (t ∷ ts) now s.touches } in
      let kept : IsHeld begun = ground arith in
      ground (arith, down, start_drag-IsHeld n t now begun down kept)

  -- A movement that is emitted if it is not zero.
  moved-IsHeld :
      (b : Bool) (o : TouchpadOutput) (s : GestureRecognizer D)
      → (o.buttons_mask ≡ 0) ⊎ (s.is_dragging ≡ true)
      → IsHeld s
      → IsDown s
      → let t = if b then emit o s else s in IsHeld t × IsDown t
  moved-IsHeld false o s holds h d = (h, d)
  moved-IsHeld true o s (inl none_pressed) h d =
      ground (arith, emit-IsHeld o s h.heard (inl none_pressed))
  moved-IsHeld true o s (inr drag) h d = ground (arith, emit-IsHeld o s h.heard (inr (inl drag)))

  pub move_pointer-IsHeld :
      (n : Numbers D) (t : TouchPoint D) (u : TouchState D) (now : ℕ) (s : GestureRecognizer D)
      → IsHeld s
      → IsDown s
      → IsHeld (move_pointer n t u now s) × IsDown (move_pointer n t u now s)
  unfolding move_pointer
  move_pointer-IsHeld n t u now s h d =
      moved-IsHeld _ _ _ (pointer_output-mask _ _ s.is_dragging)
        (record { heard = h.heard; held = h.held })
        (elim d [ inl still ↦ inl still | inr down ↦ inr (length-follow n t _ now s.touches down) ])

  pub scroll-IsHeld :
      (n : Numbers D) (t₁ : TouchPoint D) (u₁ : TouchState D) (t₂ : TouchPoint D)
      (u₂ : TouchState D) (now : ℕ) (s : GestureRecognizer D)
      → IsHeld s
      → IsDown s
      → IsHeld (scroll n t₁ u₁ t₂ u₂ now s) × IsDown (scroll n t₁ u₁ t₂ u₂ now s)
  unfolding scroll wheel_output
  scroll-IsHeld n t₁ u₁ t₂ u₂ now s h d =
      moved-IsHeld _ _ _ (inl refl) (record { heard = h.heard; held = h.held })
        (elim d [
          | inl still ↦ inl still
          | inr down ↦ inr (length-follow n t₂ _ now _ (length-follow n t₁ _ now s.touches down))
        ])

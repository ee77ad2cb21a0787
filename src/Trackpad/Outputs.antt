-- ===== src/Trackpad/Outputs.antt =====
-- GestureRecognizer.ts and TrackpadView.tsx: every output fits the wire.
use lookauniversalremote.Prelude.{
  ℕ, ◌≤◌, ◌≡◌, ap, ◌∙◌, arith, ℤ, pos, negsuc, Bool, true, false, List, [], ◌∷◌, All, All-snoc,
  All-map, IsI8, IsI16, max_ℤ, min_ℤ, bit_or, length, Option, none, some, if◌then◌else◌,
  Option-cases, if_either, inl, inr,
}
use lookauniversalremote.Prelude.Bits.{ones, bit_or_le}
use lookauniversalremote.Protocol.Types.{TouchpadPayload, touchpad}
use lookauniversalremote.Protocol.View.{TextCodec}
use lookauniversalremote.Protocol.Encoder.Frames.{frame}
use lookauniversalremote.Protocol.Reader.{ok, array_buffer}
use lookauniversalremote.Protocol.Decoder.{decode_packet}
use lookauniversalremote.Protocol.Decoder.RoundTrip.{sent_header, decode-frame}
use lookauniversalremote.Protocol.Decoder.Range.{as_sent-id}
use lookauniversalremote.Trackpad.State.{
  Numbers, PartialConfig, TouchPoint, TouchpadOutput, TouchState, Release, tap_release,
  two_finger_release, GestureRecognizer, get_touch, or_else, new_recognizer,
}
use lookauniversalremote.Trackpad.Recognizer.{
  buttons, pointer_output, wheel_output, emit, set_config, set_callback, handle_tap,
  handle_two_finger_tap, release, fire_timeout, begin_touches, start_drag, move_pointer, scroll,
  on_touch_start, on_touch_move,
}
use lookauniversalremote.Trackpad.Lifting.{detect_tap, lift, lift_all, end_touches, on_touch_end}
use lookauniversalremote.Trackpad.Run.{
  Event, starts, moves, ends, times_out, configures, subscribes, step, run,
}

-- `handleTrackpadOutput` of the view: what is sent for an output while the buttons of the mask
-- `active` are held below the trackpad.
unfoldable pub output_payload : ℕ → TouchpadOutput → TouchpadPayload
output_payload active o = record {
  dx = o.dx;
  dy = o.dy;
  scroll_v = o.scroll_v;
  scroll_h = o.scroll_h;
  buttons_mask = pos (bit_or o.buttons_mask active);
}

record IsSmall (o : TouchpadOutput) : Type 0 where
  dx_ok : IsI16 o.dx
  dy_ok : IsI16 o.dy
  scroll_v_ok : IsI8 o.scroll_v
  scroll_h_ok : IsI8 o.scroll_h
  mask_ok : o.buttons_mask ≤ ones 8

clamp-IsI16 : (v : ℤ) → IsI16 (max_ℤ (negsuc 32767) (min_ℤ (pos 32767) v))
unfolding max_ℤ min_ℤ
clamp-IsI16 v = ground arith

clamp-IsI8 : (v : ℤ) → IsI8 (max_ℤ (negsuc 127) (min_ℤ (pos 127) v))
unfolding max_ℤ min_ℤ
clamp-IsI8 v = ground arith

buttons-IsSmall : (mask : ℕ) → mask ≤ 255 → IsSmall (buttons mask)
buttons-IsSmall mask h = ground arith

pointer_output-IsSmall : (x y : ℤ) (dragging : Bool) → IsSmall (pointer_output x y dragging)
unfolding pointer_output
pointer_output-IsSmall x y true = ground (arith, clamp-IsI16 x, clamp-IsI16 y)
pointer_output-IsSmall x y false = ground (arith, clamp-IsI16 x, clamp-IsI16 y)

wheel_output-IsSmall : (v h : ℤ) → IsSmall (wheel_output v h)
unfolding wheel_output
wheel_output-IsSmall v h = ground (arith, clamp-IsI8 v, clamp-IsI8 h)

module _ {D : Type 0} where
  record AllSmall (s : GestureRecognizer D) : Type 0 where
    each : All (λ e. IsSmall e.1) s.emitted

  emit-AllSmall :
      (o : TouchpadOutput) (s : GestureRecognizer D) → IsSmall o → AllSmall s → AllSmall (emit o s)
  unfolding emit
  emit-AllSmall o s small h = by_callback s.callback s h
    where
      by_callback :
          (c : Option ℕ) (s : GestureRecognizer D)
          → AllSmall s
          → AllSmall (emit o (record s { callback = c }))
      by_callback none s h = record { each = h.each }
      by_callback (some k) s h = record {
        each = All-snoc (λ e. IsSmall e.1) s.emitted (k, o) h.each small;
      }

  -- An output that is emitted on a condition.
  emit_if-AllSmall :
      (b : Bool) (o : TouchpadOutput) (s : GestureRecognizer D)
      → IsSmall o
      → AllSmall s
      → AllSmall (if b then emit o s else s)
  emit_if-AllSmall true o s small h = emit-AllSmall o s small h
  emit_if-AllSmall false o s small h = h

  release-AllSmall : (r : Release) (s : GestureRecognizer D) → AllSmall s → AllSmall (release r s)
  release-AllSmall tap_release s h =
      if_either AllSmall s.is_dragging (λ drag. h)
        (λ still. emit-AllSmall (buttons 0) s (buttons-IsSmall 0 (omega arith)) h)
  release-AllSmall two_finger_release s h =
      emit-AllSmall (buttons 0) s (buttons-IsSmall 0 (omega arith)) h

  fire_timeout-AllSmall : (s : GestureRecognizer D) → AllSmall s → AllSmall (fire_timeout s)
  unfolding fire_timeout
  fire_timeout-AllSmall s h = by_timeouts s.timeouts s h
    where
      by_timeouts :
          (rs : List Release) (s : GestureRecognizer D)
          → AllSmall s
          → AllSmall (fire_timeout (record s { timeouts = rs }))
      by_timeouts [] s h = record { each = h.each }
      by_timeouts (r ∷ rs) s h =
          release-AllSmall r (record s { timeouts = rs }) (record { each = h.each })

  module _ (n : Numbers D) where
    detect_tap-AllSmall :
        (count : ℕ) (u : TouchState D) (now : ℕ) (s : GestureRecognizer D)
        → AllSmall s
        → AllSmall (detect_tap n count u now s)
    unfolding detect_tap handle_tap handle_two_finger_tap
    detect_tap-AllSmall count u now s h =
        let tapped = record s {
          last_tap_time = now;
          last_tap_x = u.start_x;
          last_tap_y = u.start_y;
        } in
        ground (
          arith,
          emit-AllSmall (buttons 9) tapped (buttons-IsSmall 9 (omega arith))
              (record { each = h.each }),
          emit-AllSmall (buttons 2) s (buttons-IsSmall 2 (omega arith)) h,
        )

    lift_all-AllSmall :
        (count now : ℕ) (ids : List ℕ) (s : GestureRecognizer D)
        → AllSmall s
        → AllSmall (lift_all n count now ids s)
    unfolding lift_all lift
    lift_all-AllSmall count now [] s h = h
    lift_all-AllSmall count now (id ∷ ids) s h =
        lift_all-AllSmall count now ids (lift n count now id s)
          (elim (Option-cases (get_touch id s.touches)) [
            | inl unknown ↦ rw (unknown, lift) h
            | inr (u, known) ↦
                rw (known, lift) (record { each = (detect_tap-AllSmall count u now s h).each })
          ])

    end_touches-AllSmall : (s : GestureRecognizer D) → AllSmall s → AllSmall (end_touches n s)
    unfolding end_touches
    end_touches-AllSmall s h = ground (
      arith,
      emit-AllSmall (buttons 0) (record s { is_dragging = false }) (buttons-IsSmall 0 (omega arith))
          (record { each = h.each }),
    )

    on_touch_start-AllSmall :
        (active : List (TouchPoint D)) (now : ℕ) (s : GestureRecognizer D)
        → AllSmall s
        → AllSmall (or_else (on_touch_start n active now s) s)
    unfolding on_touch_start start_drag
    on_touch_start-AllSmall [] now s h = ground arith
    on_touch_start-AllSmall (t ∷ ts) now s h = ground (
      arith,
      emit-AllSmall (buttons 1)
          (record s { touches = begin_touches n (t ∷ ts) now s.touches; is_dragging = true })
          (buttons-IsSmall 1 (omega arith)) (record { each = h.each }),
    )

    move_pointer-AllSmall :
        (t : TouchPoint D) (u : TouchState D) (now : ℕ) (s : GestureRecognizer D)
        → AllSmall s
        → AllSmall (move_pointer n t u now s)
    unfolding move_pointer
    move_pointer-AllSmall t u now s h = search (emit_if-AllSmall, pointer_output-IsSmall)

    scroll-AllSmall :
        (t₁ : TouchPoint D) (u₁ : TouchState D) (t₂ : TouchPoint D) (u₂ : TouchState D) (now : ℕ)
        (s : GestureRecognizer D)
        → AllSmall s
        → AllSmall (scroll n t₁ u₁ t₂ u₂ now s)
    unfolding scroll
    scroll-AllSmall t₁ u₁ t₂ u₂ now s h = search (emit_if-AllSmall, wheel_output-IsSmall)

    on_touch_move-AllSmall :
        (active : List (TouchPoint D)) (now : ℕ) (s : GestureRecognizer D)
        → AllSmall s
        → AllSmall (on_touch_move n active now s)
    unfolding on_touch_move
    on_touch_move-AllSmall [] now s h = h
    on_touch_move-AllSmall (t ∷ []) now s h = elim (Option-cases (get_touch t.id s.touches)) [
      | inl unknown ↦ rw (unknown, on_touch_move) h
      | inr (u, known) ↦ rw (known, on_touch_move) (move_pointer-AllSmall t u now s h)
    ]
    on_touch_move-AllSmall (t₁ ∷ t₂ ∷ []) now s h =
        elim (Option-cases (get_touch t₁.id s.touches)) [
          | inl unknown ↦ rw (unknown, on_touch_move) h
          | inr (u₁, known₁) ↦ elim (Option-cases (get_touch t₂.id s.touches)) [
            | inl unknown ↦ rw (known₁, unknown, on_touch_move) h
            | inr (u₂, known₂) ↦
                rw (known₁, known₂, on_touch_move) (scroll-AllSmall t₁ u₁ t₂ u₂ now s h)
          ]
        ]
    on_touch_move-AllSmall (_ ∷ _ ∷ _ ∷ _) now s h = h

    run-AllSmall :
        (es : List (Event D)) (s : GestureRecognizer D) → AllSmall s → AllSmall (run n es s)
    unfolding step on_touch_end set_config set_callback
    run-AllSmall [] s h = h
    run-AllSmall (starts active now ∷ es) s h =
        run-AllSmall es _ (on_touch_start-AllSmall active now s h)
    run-AllSmall (moves active now ∷ es) s h =
        run-AllSmall es _ (on_touch_move-AllSmall active now s h)
    run-AllSmall (ends removed now ∷ es) s h = run-AllSmall es _ (
        end_touches-AllSmall (lift_all n (length s.touches) now removed s)
          (lift_all-AllSmall (length s.touches) now removed s h))
    run-AllSmall (times_out ∷ es) s h = run-AllSmall es _ (fire_timeout-AllSmall s h)
    run-AllSmall (configures config ∷ es) s h =
        run-AllSmall es (set_config config s) (record { each = h.each })
    run-AllSmall (subscribes k ∷ es) s h =
        run-AllSmall es (set_callback k s) (record { each = h.each })

-- The host decodes exactly this from the frame of a touchpad message.
abbrev pub IsDecoded : TextCodec → ℤ → ℤ → TouchpadPayload → Type 0
IsDecoded codec seq flags p =
    decode_packet codec (array_buffer (frame codec seq flags (touchpad p)))
    ≡ ok (record { header = sent_header codec seq flags (touchpad p); payload = touchpad p })

small-IsDecoded :
    (codec : TextCodec) (seq flags : ℤ) (active : ℕ) (o : TouchpadOutput)
    → active ≤ ones 8
    → IsSmall o
    → IsDecoded codec seq flags (output_payload active o)
unfolding output_payload
small-IsDecoded codec seq flags active o le h =
    let p = output_payload active o in
    let mask = bit_or_le 8 o.buttons_mask active h.mask_ok le in
    decode-frame codec seq flags (touchpad p)
    ∙ ap (λ q. ok (record { header = sent_header codec seq flags (touchpad p); payload = q }))
        (as_sent-id codec (touchpad p)
          (h.dx_ok, h.dy_ok, h.scroll_v_ok, h.scroll_h_ok, omega (arith, mask)))

-- Over any sequence of touches, movements, lifted fingers, timeouts and changes of the settings and
-- the callback, every output that the recognizer emits is sent with no loss, whatever buttons of an
-- 8-bit mask are held below the trackpad: the host decodes exactly its numbers, with those buttons
-- added.
pub run-IsDecoded :
    {D : Type 0} (n : Numbers D) (es : List (Event D)) (config : PartialConfig D)
    (callback : Option ℕ) (codec : TextCodec) (seq flags : ℤ) (active : ℕ)
    → active ≤ ones 8
    → All
        (λ e. IsDecoded codec seq flags (output_payload active e.1))
        (run n es (new_recognizer n config callback)).emitted
unfolding new_recognizer
run-IsDecoded n es config callback codec seq flags active le =
    All-map (λ e. IsSmall e.1) (λ e. IsDecoded codec seq flags (output_payload active e.1)) _
      (λ e small. small-IsDecoded codec seq flags active e.1 le small)
      (run-AllSmall n es (new_recognizer n config callback) (record { each = tt })).each

-- ===== src/Gamepad/Centred.antt =====
-- A stick that no finger holds is reported in the middle, and every report fits 16 bits.
use lookauniversalremote.Prelude.{
  ℕ, ◌≡◌, inl, inr, refl, ap, arith, if◌then◌else◌, Bool, true, ◌||◌, pos, negsuc, IsI16, min_ℤ,
  max_ℤ, List, [], ◌∷◌, ◌++◌, All, All-snoc, Option, none, some, if_either, Option-cases, ==_iff,
}
use lookauniversalremote.Motion.{
  Floats, Whole, finite, infinity, minus_infinity, nan, min_whole, max_whole,
}
use lookauniversalremote.Gamepad.Joystick.{
  Angles, JoystickProps, JoystickVectorResult, PointerEvent, VirtualJoystick, is_pointer, centre,
  calculate_joystick_vector, move_puck, tap_stick, handle_pointer_down, handle_pointer_move,
  handle_pointer_up,
}

-- What reaches the component.
pub data Touch (D : Type 0) : Type 0 where
  puts_down : Bool → JoystickProps D → D → PointerEvent D → Touch D
  moves_to : JoystickProps D → PointerEvent D → Touch D
  takes_up : ℕ → Touch D

-- A report of a stick: 16 bits, or NaN.
abbrev pub IsStick : Whole → Type 0
IsStick (finite z) = IsI16 z
IsStick infinity = ⊥
IsStick minus_infinity = ⊥
IsStick nan = Unit

abbrev pub IsReport : Whole × Whole → Type 0
IsReport r = IsStick r.0 × IsStick r.1

-- The last of the reports; before the first the stick is in the middle.
abbrev pub last_report : Whole × Whole → List (Whole × Whole) → Whole × Whole
last_report r [] = r
last_report r (s ∷ ss) = last_report s ss

last_report-snoc :
    (r s : Whole × Whole) (rs : List (Whole × Whole)) → last_report r (rs ++ s ∷ []) ≡ s
last_report-snoc r s [] = refl
last_report-snoc r s (t ∷ rs) = last_report-snoc t s rs

clamped-IsStick : (w : Whole) → IsStick (max_whole (negsuc 32767) (min_whole (pos 32767) w))
unfolding max_ℤ min_ℤ
clamped-IsStick (finite (pos k)) = ground arith
clamped-IsStick (finite (negsuc k)) = ground arith
clamped-IsStick infinity = ground arith
clamped-IsStick minus_infinity = ground arith
clamped-IsStick nan = tt

held_by : (o : Option ℕ) (id : ℕ) → is_pointer o id ≡ true → o ≡ some id
held_by none id e = absurd cc
held_by (some p) id e = let same : p ≡ id = (==_iff p id).0 e in ap some same

module _ {D : Type 0} (n : Floats D) (trig : Angles D) where
  abbrev pub touch : Touch D → VirtualJoystick D → VirtualJoystick D
  touch (puts_down accepts props now e) s = handle_pointer_down n trig accepts props now e s
  touch (moves_to props e) s = handle_pointer_move n trig props e s
  touch (takes_up p) s = handle_pointer_up n p s

  abbrev pub touch_all : List (Touch D) → VirtualJoystick D → VirtualJoystick D
  touch_all [] s = s
  touch_all (t ∷ ts) s = touch_all ts (touch t s)

  -- Without a pointer the last report is the middle; every report fits.
  pub record IsCentred (s : VirtualJoystick D) : Type 0 where
    pub resting : s.active_pointer_id ≡ none → last_report centre s.changes ≡ centre
    pub reports : All IsReport s.changes

  -- What a vector reports.
  record Fits (v : JoystickVectorResult D) : Type 0 where
    x : IsStick v.stick_x
    y : IsStick v.stick_y

  vector-Fits :
      (dx dy radius deadzone sensitivity : D) (invert : Bool)
      → Fits (calculate_joystick_vector n trig dx dy radius deadzone sensitivity invert)
  unfolding calculate_joystick_vector
  vector-Fits dx dy radius deadzone sensitivity invert =
      if_either Fits
        (n.less_eq radius (n.decimal (pos 0) 0) || n.less (n.hypot dx dy) (n.decimal (pos 1) 4))
        (λ e. record { x = omega arith; y = omega arith })
        λ e.
          if_either Fits
            (n.less_eq (n.min_of (n.decimal (pos 1) 0) (n.div (n.hypot dx dy) radius)) deadzone)
            (λ h. record { x = omega arith; y = omega arith })
            (λ h. record { x = clamped-IsStick _; y = clamped-IsStick _ })

  -- Moving the puck of a held stick.
  move-IsCentred :
      (props : JoystickProps D) (e : PointerEvent D) (s : VirtualJoystick D) (p : ℕ)
      → s.active_pointer_id ≡ some p
      → All IsReport s.changes
      → IsCentred (move_puck n trig props e s)
  unfolding move_puck
  move-IsCentred props e s p active reports =
      let v =
        vector-Fits (n.sub e.client_x s.anchor_x) (n.sub e.client_y s.anchor_y) props.radius
          props.deadzone props.sensitivity props.invert_y in
      record {
        resting = λ h. absurd cc;
        reports = All-snoc IsReport s.changes _ reports (v.x, v.y);
      }

  -- A tap keeps the pointer and the reports.
  record Keeps (s t : VirtualJoystick D) : Type 0 where
    pointer : t.active_pointer_id ≡ s.active_pointer_id
    changes : t.changes ≡ s.changes

  tap-Keeps :
      (accepts : Bool) (now : D) (s : VirtualJoystick D) → Keeps s (tap_stick n accepts now s)
  unfolding tap_stick
  tap-Keeps accepts now s =
      if_either (Keeps s) (n.less (n.sub now s.last_click_time) (n.decimal (pos 280) 0))
        (λ e. record { pointer = refl; changes = refl })
        (λ e. record { pointer = refl; changes = refl })

  touch-IsCentred : (t : Touch D) (s : VirtualJoystick D) → IsCentred s → IsCentred (touch t s)
  unfolding handle_pointer_down handle_pointer_move handle_pointer_up
  touch-IsCentred (puts_down accepts props now e) s ok = elim (Option-cases s.active_pointer_id) [
    | inl free ↦
        let t = record s {
          active_pointer_id = some e.pointer_id;
          is_active = true;
          anchor_x = if props.floating then e.client_x else e.center_x;
          anchor_y = if props.floating then e.client_y else e.center_y;
        } in
        let k = tap-Keeps accepts now t in
        rw (free, handle_pointer_down)
          (move-IsCentred props e (tap_stick n accepts now t) e.pointer_id k.pointer
            (rw k.changes ok.reports))
    | inr (p, held) ↦ rw (held, handle_pointer_down) ok
  ]
  touch-IsCentred (moves_to props e) s ok =
      if_either IsCentred (is_pointer s.active_pointer_id e.pointer_id)
        (λ h.
          move-IsCentred props e s e.pointer_id (held_by s.active_pointer_id e.pointer_id h)
            ok.reports)
        (λ h. ok)
  touch-IsCentred (takes_up p) s ok =
      if_either IsCentred (is_pointer s.active_pointer_id p)
        (λ h. record {
          resting = λ e. last_report-snoc centre centre s.changes;
          reports = All-snoc IsReport s.changes centre ok.reports (omega arith, omega arith);
        })
        (λ h. ok)

  -- Whatever pointers come down, move and are lifted or cancelled, in any order, while no pointer
  -- holds the stick its last report is the middle, and every report has two numbers of 16 bits, or
  -- NaN where the floats give no number.
  pub touch_all-IsCentred :
      (ts : List (Touch D)) (s : VirtualJoystick D) → IsCentred s → IsCentred (touch_all ts s)
  touch_all-IsCentred [] s ok = ok
  touch_all-IsCentred (t ∷ ts) s ok = touch_all-IsCentred ts (touch t s) (touch-IsCentred t s ok)

-- ===== src/Gamepad/Joystick.antt =====
-- apps/web-client/src/features/gamepad/VirtualJoystick.tsx: the vector of a stick, and its pointer
-- handlers.
use lookauniversalremote.Prelude.{
  ℕ, suc, ◌==◌, if◌then◌else◌, Bool, true, false, ◌||◌, pos, negsuc, List, [], ◌∷◌, ◌++◌, Option,
  none, some,
}
use lookauniversalremote.Haptics.{HapticEngine, light_tap, heavy_click}
use lookauniversalremote.Motion.{Floats, Whole, finite, min_whole, max_whole}

-- The functions of angles.
pub record Angles (D : Type 0) : Type 0 where
  pub atan2 : D → D → D
  pub cos : D → D
  pub sin : D → D
  pub negate : D → D

pub record JoystickVectorResult (D : Type 0) : Type 0 where
  pub stick_x : Whole
  pub stick_y : Whole
  pub visual_x : D
  pub visual_y : D
  pub magnitude : D

-- The props that the handlers read.
pub record JoystickProps (D : Type 0) : Type 0 where
  pub radius : D
  pub deadzone : D
  pub sensitivity : D
  pub invert_y : Bool
  pub floating : Bool

-- A pointer event: the pointer, its place, and the place of the element's centre.
pub record PointerEvent (D : Type 0) : Type 0 where
  pub pointer_id : ℕ
  pub client_x : D
  pub client_y : D
  pub center_x : D
  pub center_y : D

-- The refs and the state of the component, with the haptic engine, the calls of `onChange` and the
-- number of the calls of `onStickClick`.
pub record VirtualJoystick (D : Type 0) : Type 0 where
  pub active_pointer_id : Option ℕ
  pub anchor_x : D
  pub anchor_y : D
  pub last_click_time : D
  pub puck_x : D
  pub puck_y : D
  pub is_active : Bool
  pub haptics : HapticEngine
  pub changes : List (Whole × Whole)
  pub stick_clicks : ℕ

-- `activePointerId.current === id`.
abbrev pub is_pointer : Option ℕ → ℕ → Bool
is_pointer none id = false
is_pointer (some p) id = p == id

abbrev pub centre : Whole × Whole
centre = (finite (pos 0), finite (pos 0))

module _ {D : Type 0} where
  -- The cleanup of the effect.
  unfoldable pub unmount : VirtualJoystick D → VirtualJoystick D
  unmount s = record s { changes = s.changes ++ centre ∷ [] }

module _ {D : Type 0} (n : Floats D) where
  unfoldable pub new_joystick : HapticEngine → VirtualJoystick D
  new_joystick haptics =
      let nought = n.decimal (pos 0) 0 in
      record {
        active_pointer_id = none;
        anchor_x = nought;
        anchor_y = nought;
        last_click_time = nought;
        puck_x = nought;
        puck_y = nought;
        is_active = false;
        haptics = haptics;
        changes = [];
        stick_clicks = 0;
      }

  -- The second tap within 280 ms is a click of the stick; `now` is `performance.now()`.
  unfoldable pub tap_stick : Bool → D → VirtualJoystick D → VirtualJoystick D
  unfolding light_tap heavy_click
  tap_stick accepts now s =
      if n.less (n.sub now s.last_click_time) (n.decimal (pos 280) 0)
      then record s {
        haptics = heavy_click accepts s.haptics;
        stick_clicks = suc s.stick_clicks;
        last_click_time = n.decimal (pos 0) 0;
      }
      else record s { last_click_time = now; haptics = light_tap accepts s.haptics }

  -- Also the handler of a cancelled pointer.
  unfoldable pub handle_pointer_up : ℕ → VirtualJoystick D → VirtualJoystick D
  handle_pointer_up pointer_id s =
      if is_pointer s.active_pointer_id pointer_id
      then record s {
        active_pointer_id = none;
        is_active = false;
        puck_x = n.decimal (pos 0) 0;
        puck_y = n.decimal (pos 0) 0;
        changes = s.changes ++ centre ∷ [];
      }
      else s

module _ {D : Type 0} (n : Floats D) (trig : Angles D) where
  -- `Math.max(-32768, Math.min(32767, Math.round(v * 32767)))`.
  abbrev pub stick_value : D → Whole
  stick_value v =
      max_whole (negsuc 32767) (min_whole (pos 32767) (n.round (n.mul v (n.decimal (pos 32767) 0))))

  unfoldable pub calculate_joystick_vector : D → D → D → D → D → Bool → JoystickVectorResult D
  calculate_joystick_vector dx dy max_radius deadzone sensitivity invert_y =
      let nought = n.decimal (pos 0) 0 in
      let one = n.decimal (pos 1) 0 in
      let distance = n.hypot dx dy in
      if n.less_eq max_radius nought || n.less distance (n.decimal (pos 1) 4)
      then record {
        stick_x = finite (pos 0);
        stick_y = finite (pos 0);
        visual_x = nought;
        visual_y = nought;
        magnitude = nought;
      }
      else (let normalized_radius = n.min_of one (n.div distance max_radius) in
          let angle = trig.atan2 dy dx in
          let visual_dist = n.min_of distance max_radius in
          if n.less_eq normalized_radius deadzone
          then record {
            stick_x = finite (pos 0);
            stick_y = finite (pos 0);
            visual_x = n.mul (trig.cos angle) visual_dist;
            visual_y = n.mul (trig.sin angle) visual_dist;
            magnitude = nought;
          }
          else (let clamped_deadzone =
                n.max_of (n.decimal (pos 1) 2) (n.min_of (n.decimal (pos 95) 2) deadzone) in
              let rescaled_mag = n.min_of one (
                n.mul
                  (n.div (n.sub normalized_radius clamped_deadzone) (n.sub one clamped_deadzone))
                  sensitivity) in
              let raw_y = n.mul (trig.sin angle) rescaled_mag in
              record {
                stick_x = stick_value (n.mul (trig.cos angle) rescaled_mag);
                stick_y = stick_value (if invert_y then trig.negate raw_y else raw_y);
                visual_x = n.mul (trig.cos angle) visual_dist;
                visual_y = n.mul (trig.sin angle) visual_dist;
                magnitude = rescaled_mag;
              }))

  -- The end of `handlePointerDown` and of `handlePointerMove`.
  unfoldable pub move_puck :
      JoystickProps D → PointerEvent D → VirtualJoystick D → VirtualJoystick D
  unfolding calculate_joystick_vector
  move_puck props e s =
      let v =
        calculate_joystick_vector (n.sub e.client_x s.anchor_x) (n.sub e.client_y s.anchor_y)
          props.radius props.deadzone props.sensitivity props.invert_y in
      record s {
        puck_x = v.visual_x;
        puck_y = v.visual_y;
        changes = s.changes ++ (v.stick_x, v.stick_y) ∷ [];
      }

  unfoldable pub handle_pointer_down :
      Bool → JoystickProps D → D → PointerEvent D → VirtualJoystick D → VirtualJoystick D
  unfolding tap_stick move_puck
  handle_pointer_down accepts props now e s = elim s.active_pointer_id [
    | some p ↦ s
    | none ↦ move_puck props e (
        tap_stick n accepts now (record s {
          active_pointer_id = some e.pointer_id;
          is_active = true;
          anchor_x = if props.floating then e.client_x else e.center_x;
          anchor_y = if props.floating then e.client_y else e.center_y;
        }))
  ]

  unfoldable pub handle_pointer_move :
      JoystickProps D → PointerEvent D → VirtualJoystick D → VirtualJoystick D
  unfolding move_puck
  handle_pointer_move props e s =
      if is_pointer s.active_pointer_id e.pointer_id then move_puck props e s else s

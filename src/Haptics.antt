-- ===== src/Haptics.antt =====
-- The haptic engine of the client: ui/haptics/hapticEngine.ts.
use lookauniversalremote.Prelude.{
  ℕ, zero, suc, ◌+◌, ◌-◌, ◌*◌, ◌==◌, max, ltb, leb, if◌then◌else◌, Bool, true, false, not, ◌&&◌,
  ◌||◌, ℤ, pos, negsuc, pos_part, leb_ℤ, min_ℤ, max_ℤ, List, [], ◌∷◌, ◌++◌,
}
use lookauniversalremote.Prelude.Ratio.{Ratio, round}
use lookauniversalremote.Bridge.Incoming.{MotorName, left, right, both}
pub mod Rumble

-- The argument of `navigator.vibrate`.
pub data Pattern : Type 0 where
  single : ℤ → Pattern
  pulses : List ℕ → Pattern

-- The last two fields are the browser's: whether it can vibrate, and the calls of `vibrate`.
pub record HapticEngine : Type 0 where
  pub enabled : Bool
  pub supported : Bool
  pub vibrations : List Pattern

unfoldable pub set_enabled : Bool → HapticEngine → HapticEngine
set_enabled on e = record e { enabled = on }

unfoldable pub is_enabled : HapticEngine → Bool
is_enabled e = e.enabled

-- `accepts` is the answer of the browser, false if it throws.
unfoldable pub vibrate : Bool → Pattern → HapticEngine → HapticEngine × Bool
vibrate accepts pattern e =
    if not e.enabled || not e.supported
    then (e, false)
    else (record e { vibrations = e.vibrations ++ pattern ∷ [] }, accepts)

-- `Math.max(0, Math.min(255, intensity))`.
unfoldable pub clamp_intensity : Ratio → Ratio
clamp_intensity r =
    if leb_ℤ r.num (pos (255 * r.den))
    then record r { num = max_ℤ (pos 0) r.num }
    else record { num = pos 255; den = 1 }

-- The lengths of the pulses, and of the pauses between them.
unfoldable pub pulse_on : Ratio → ℕ
unfolding round
pulse_on c =
    max 5 (pos_part (round (record { num = pos (20 * pos_part c.num); den = 255 * c.den })))

unfoldable pub pulse_off : ℕ → ℕ
pulse_off on = max 5 (20 - on)

-- The loop that fills the pattern, on fuel.
unfoldable pub pulse_loop : ℕ → ℕ → ℕ → ℕ → ℕ → List ℕ
pulse_loop zero on off duration elapsed = []
pulse_loop (suc fuel) on off duration elapsed =
    let rest = pulse_loop fuel on off duration (elapsed + on + off) in
    if ltb elapsed duration then on ∷ off ∷ rest else []

unfoldable pub rumble : Bool → Ratio → ℤ → HapticEngine → HapticEngine
unfolding vibrate clamp_intensity pulse_on pulse_off pulse_loop
rumble accepts intensity duration e =
    let c = clamp_intensity intensity in
    if not e.enabled || (not e.supported || leb_ℤ duration (pos 0)) || (pos_part c.num == 0)
    then e
    else if leb (200 * c.den) (pos_part c.num) || not (leb_ℤ (pos 50) duration)
    then (vibrate accepts (single duration) e).0
    else (let on = pulse_on c in
        let d = pos_part duration in
        (vibrate accepts (pulses (pulse_loop d on (pulse_off on) d 0)) e).0)

abbrev pub whole : ℤ → Ratio
whole v = record { num = v; den = 1 }

-- `intensity * 1.2`, 255 at most.
abbrev pub louder : ℤ → Ratio
louder (pos i) =
    if leb (6 * i) (255 * 5) then record { num = pos (6 * i); den = 5 } else whole (pos 255)
louder (negsuc i) = record { num = negsuc (6 * i + 5); den = 5 }

-- `light` rounds the product with the float 0.7.
unfoldable pub motor_feedback : (ℤ → ℤ) → Bool → MotorName → ℤ → ℤ → HapticEngine → HapticEngine
unfolding rumble
motor_feedback light accepts left intensity duration e =
    rumble accepts (louder intensity) duration e
motor_feedback light accepts right intensity duration e =
    rumble accepts (whole (light intensity)) (min_ℤ (pos 60) duration) e
motor_feedback light accepts both intensity duration e = rumble accepts (whole intensity) duration e

unfoldable pub light_tap : Bool → HapticEngine → HapticEngine
unfolding vibrate
light_tap accepts e = (vibrate accepts (single (pos 8)) e).0

unfoldable pub button_click : Bool → HapticEngine → HapticEngine
unfolding vibrate
button_click accepts e = (vibrate accepts (single (pos 16)) e).0

unfoldable pub heavy_click : Bool → HapticEngine → HapticEngine
unfolding vibrate
heavy_click accepts e = (vibrate accepts (single (pos 30)) e).0

unfoldable pub double_pulse : Bool → HapticEngine → HapticEngine
unfolding vibrate
double_pulse accepts e = (vibrate accepts (pulses (15 ∷ 40 ∷ 15 ∷ [])) e).0

unfoldable pub pair_success : Bool → HapticEngine → HapticEngine
unfolding vibrate
pair_success accepts e = (vibrate accepts (pulses (20 ∷ 60 ∷ 30 ∷ 60 ∷ 50 ∷ [])) e).0

unfoldable pub error_alert : Bool → HapticEngine → HapticEngine
unfolding vibrate
error_alert accepts e = (vibrate accepts (pulses (40 ∷ 40 ∷ 40 ∷ 40 ∷ 60 ∷ [])) e).0

unfoldable pub disconnect_warning : Bool → HapticEngine → HapticEngine
unfolding vibrate
disconnect_warning accepts e = (vibrate accepts (pulses (50 ∷ 50 ∷ 50 ∷ [])) e).0

-- ===== src/Haptics/Rumble.antt =====
-- hapticEngine.ts: a weak rumble is a row of pulses of the right length.
use lookauniversalremote.Prelude.{
  ℕ, zero, suc, ◌+◌, ◌≤◌, ◌<◌, ◌≡◌, ◌⊎◌, Bool, true, pos, max_ℤ, List, [], ◌∷◌, ◌++◌, arith,
}
use lookauniversalremote.Prelude.Ratio.{round, floor_div}
use lookauniversalremote.Haptics.{
  pulses, HapticEngine, vibrate, clamp_intensity, pulse_on, pulse_off, pulse_loop, rumble, whole,
}

-- How long a pattern lasts.
abbrev pub total : List ℕ → ℕ
total [] = 0
total (p ∷ ps) = p + total ps

-- With a period that is not 0 and as much fuel as there are milliseconds left, the loop ends when the
-- pulses reach the duration, and not a whole period later.
pulse_loop-total :
    (fuel on off duration elapsed : ℕ)
    → 0 < on
    → duration ≤ elapsed + fuel
    → let lasts = total (pulse_loop fuel on off duration elapsed) in
      (duration ≤ elapsed + lasts)
      × ((elapsed + lasts < duration + (on + off)) ⊎ ((lasts ≡ 0) × (duration ≤ elapsed)))
unfolding pulse_loop
pulse_loop-total zero on off duration elapsed positive enough = ground arith
pulse_loop-total (suc fuel) on off duration elapsed positive enough =
    let (reaches, ends) =
      pulse_loop-total fuel on off duration (elapsed + on + off) positive (omega arith) in
    ground arith

clamp_intensity-id : (i : ℕ) → i < 200 → clamp_intensity (whole (pos i)) ≡ whole (pos i)
unfolding clamp_intensity max_ℤ
clamp_intensity-id i weak = ground arith

pulse_on-bounds : (i : ℕ) → i < 200 → let on = pulse_on (whole (pos i)) in (5 ≤ on) × (on ≤ 16)
unfolding pulse_on round floor_div
pulse_on-bounds i weak = ground arith

-- An enabled engine that can vibrate: a rumble of an intensity from 1 to 199 and at least 50 ms hands
-- the browser one pattern of pulses and pauses. The loop that fills it ends when it lasts at least as
-- long as it should, and at most 20 ms longer.
pub rumble-total :
    (accepts : Bool) (i duration : ℕ) (e : HapticEngine)
    → e.enabled ≡ true
    → e.supported ≡ true
    → 0 < i
    → i < 200
    → 50 ≤ duration
    → (ps : List ℕ) × ((rumble accepts (whole (pos i)) (pos duration) e).vibrations
        ≡ e.vibrations ++ pulses ps ∷ [])
      × (duration ≤ total ps)
      × (total ps ≤ duration + 20)
unfolding rumble vibrate pulse_off
rumble-total accepts i duration e on able some_force weak long =
    let pulse = pulse_on (whole (pos i)) in
    let (least, most) = pulse_on-bounds i weak in
    let ps = pulse_loop duration pulse (pulse_off pulse) duration 0 in
    let (reaches, ends) =
      pulse_loop-total duration pulse (pulse_off pulse) duration 0 (omega (arith, least))
        (omega arith) in
    (
      ps,
      rw (clamp_intensity-id i weak) (ground arith),
      omega (arith, reaches),
      ground (arith, ends, least, most),
    )

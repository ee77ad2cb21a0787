-- ===== src/Tests/Haptics.antt =====
-- The haptic engine at a weak rumble.
use lookauniversalremote.Prelude.{ℕ, ◌≡◌, ◌≤◌, ◌+◌, refl, arith, pos, true, List, [], ◌∷◌, ◌++◌}
use lookauniversalremote.Haptics.{HapticEngine, pulses, rumble, whole}
use lookauniversalremote.Haptics.Rumble.{total, rumble-total}

abbrev engine : HapticEngine
engine = record { enabled = true; supported = true; vibrations = [] }

rumble-total_example :
    (ps : List ℕ) × ((rumble true (whole (pos 128)) (pos 75) engine).vibrations
      ≡ [] ++ pulses ps ∷ [])
    × (75 ≤ total ps)
    × (total ps ≤ 75 + 20)
rumble-total_example =
    rumble-total true 128 75 engine refl refl (omega arith) (omega arith) (omega arith)

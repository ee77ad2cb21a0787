-- ===== src/Prelude/Ratio.antt =====
-- A finite JavaScript number is a fraction: a numerator over a denominator that is not 0. Only what
-- the client rounds or compares is needed of it.
use Prim.Native.Nat.{ℕ, ◌+◌, ◌*◌, ◌/◌}
use lookauniversalremote.Prelude.Int.{ℤ, pos, negsuc, pos_part, neg_part, sub_ℕ}

pub record Ratio : Type 0 where
  pub num : ℤ
  pub den : ℕ

-- `Math.floor (n / d)`.
unfoldable pub floor_div : ℤ → ℕ → ℤ
floor_div (pos n) d = pos (n / d)
floor_div (negsuc n) d = negsuc (n / d)

-- `Math.round(x)` is `Math.floor(x + 1/2)`: halves go up.
unfoldable pub round : Ratio → ℤ
unfolding floor_div
round r = floor_div (sub_ℕ (2 * pos_part r.num + r.den) (2 * neg_part r.num)) (2 * r.den)

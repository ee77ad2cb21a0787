-- ===== src/Prelude/Words.antt =====
-- What JavaScript keeps of an integer in 8, 16 and 32 bits: the residue that `DataView` stores and
-- that `& 0xffff` leaves, and the signed reading of such a word.
use Prim.Native.Nat.{ℕ, ◌-◌, ◌%◌, ◌<◌}
use mathlib.Core.Path.{◌≡◌}
use native.Mathlib.Omega.{arith}
use lookauniversalremote.Prelude.Tests.{ltb, if◌then◌else◌}
use lookauniversalremote.Prelude.Int.{ℤ, pos, negsuc, ◌≤ℤ◌}

unfoldable pub word8 : ℤ → ℕ
word8 (pos n) = n % 256
word8 (negsuc n) = 255 - n % 256

unfoldable pub word16 : ℤ → ℕ
word16 (pos n) = n % 65536
word16 (negsuc n) = 65535 - n % 65536

unfoldable pub word32 : ℤ → ℕ
word32 (pos n) = n % 4294967296
word32 (negsuc n) = 4294967295 - n % 4294967296

unfoldable pub signed8 : ℕ → ℤ
signed8 w = if ltb w 128 then pos w else negsuc (255 - w)

unfoldable pub signed16 : ℕ → ℤ
signed16 w = if ltb w 32768 then pos w else negsuc (65535 - w)

unfoldable pub signed32 : ℕ → ℤ
signed32 w = if ltb w 2147483648 then pos w else negsuc (4294967295 - w)

pub word8-lt : (v : ℤ) → word8 v < 256
unfolding word8
word8-lt v = ground arith

pub word16-lt : (v : ℤ) → word16 v < 65536
unfolding word16
word16-lt v = ground arith

pub word32-lt : (v : ℤ) → word32 v < 4294967296
unfolding word32
word32-lt v = ground arith

pub word8-pos : (n : ℕ) → n < 256 → word8 (pos n) ≡ n
unfolding word8
word8-pos n h = omega arith

-- The ranges in which nothing is lost.
abbrev pub IsU8 : ℤ → Type 0
IsU8 v = (pos 0 ≤ℤ v) × (v ≤ℤ pos 255)

abbrev pub IsU16 : ℤ → Type 0
IsU16 v = (pos 0 ≤ℤ v) × (v ≤ℤ pos 65535)

abbrev pub IsU32 : ℤ → Type 0
IsU32 v = (pos 0 ≤ℤ v) × (v ≤ℤ pos 4294967295)

abbrev pub IsI8 : ℤ → Type 0
IsI8 v = (negsuc 127 ≤ℤ v) × (v ≤ℤ pos 127)

abbrev pub IsI16 : ℤ → Type 0
IsI16 v = (negsuc 32767 ≤ℤ v) × (v ≤ℤ pos 32767)

pub word8-IsU8 : (v : ℤ) → IsU8 v → pos (word8 v) ≡ v
unfolding word8
word8-IsU8 v h = ground arith

pub word16-IsU16 : (v : ℤ) → IsU16 v → pos (word16 v) ≡ v
unfolding word16
word16-IsU16 v h = ground arith

pub word32-IsU32 : (v : ℤ) → IsU32 v → pos (word32 v) ≡ v
unfolding word32
word32-IsU32 v h = ground arith

pub word8-IsI8 : (v : ℤ) → IsI8 v → signed8 (word8 v) ≡ v
unfolding word8 signed8
word8-IsI8 v h = ground arith

pub word16-IsI16 : (v : ℤ) → IsI16 v → signed16 (word16 v) ≡ v
unfolding word16 signed16
word16-IsI16 v h = ground arith

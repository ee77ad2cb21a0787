-- ===== src/Prelude/Bits.antt =====
-- Single bits of `|`, `&` and `~` at variables.
use Prim.Native.Nat.{
  ℕ, zero, suc, ◌+◌, ◌-◌, ◌*◌, ◌/◌, ◌%◌, ◌≤◌, ◌<◌, min, max, bit_and, bit_or, digits,
  bit_and-bitwise, bit_or-bitwise,
}
use mathlib.Core.Path.{◌≡◌, refl, ap, ◌∙◌}
use native.Mathlib.Nat.{le_refl}
use native.Mathlib.Omega.{arith}

-- Bit `i` of a word, 0 or 1.
abbrev pub bit : ℕ → ℕ → ℕ
bit zero x = x % 2
bit (suc i) x = bit i (x / 2)

pub bit-le : (i x : ℕ) → bit i x ≤ 1
bit-le zero x = omega arith
bit-le (suc i) x = bit-le i (x / 2)

-- An operation on bits, with what it makes of a word beside zero.
record IsBitwise (z : ℕ → ℕ) (f : ℕ → ℕ → ℕ) : Type 0 where
  rest_bit : (i y : ℕ) → bit i (z y) ≡ f (bit i 0) (bit i y)
  small : (u v : ℕ) → u ≤ 1 → v ≤ 1 → f u v ≤ 1

-- The words that the native operations compute, digit by digit from the lowest, have the bits meant.
bit-digits :
    (z : ℕ → ℕ) (f : ℕ → ℕ → ℕ) (i fuel x y : ℕ)
    → IsBitwise z f
    → x ≤ fuel
    → bit i (digits z f fuel x y) ≡ f (bit i x) (bit i y)
bit-digits z f i zero zero y op le = op.rest_bit i y
bit-digits z f i zero (suc x) y op le = absurd (omega arith)
bit-digits z f i (suc fuel) zero y op le = op.rest_bit i y
bit-digits z f zero (suc fuel) (suc x) y op le =
    let digit = op.small (suc x % 2) (y % 2) (omega arith) (omega arith) in omega (arith, digit)
bit-digits z f (suc i) (suc fuel) (suc x) y op le =
    let digit = op.small (suc x % 2) (y % 2) (omega arith) (omega arith) in
    let above = digits z f fuel (suc x / 2) (y / 2) in
    let shifted : (above * 2 + f (suc x % 2) (y % 2)) / 2 ≡ above = omega (arith, digit) in
    ap (bit i) shifted ∙ bit-digits z f i fuel (suc x / 2) (y / 2) op (omega arith)

zero_bit : (i : ℕ) → bit i 0 ≡ 0
zero_bit zero = refl
zero_bit (suc i) = zero_bit i

or-IsBitwise : IsBitwise (λ y. y) max
or-IsBitwise = record {
  rest_bit = λ i y. omega (arith, zero_bit i);
  small = λ u v p q. omega arith;
}

and-IsBitwise : IsBitwise (λ y. 0) min
and-IsBitwise = record {
  rest_bit = λ i y. omega (arith, zero_bit i);
  small = λ u v p q. omega arith;
}

pub bit-bit_or : (i a b : ℕ) → bit i (bit_or a b) ≡ max (bit i a) (bit i b)
bit-bit_or i a b =
    ap (bit i) (bit_or-bitwise a b) ∙ bit-digits (λ y. y) max i a a b or-IsBitwise (le_refl a)

pub bit-bit_and : (i a b : ℕ) → bit i (bit_and a b) ≡ min (bit i a) (bit i b)
bit-bit_and i a b =
    ap (bit i) (bit_and-bitwise a b) ∙ bit-digits (λ y. 0) min i a a b and-IsBitwise (le_refl a)

-- The word of `k` one bits; `ones 32` is 0xffffffff.
abbrev pub ones : ℕ → ℕ
ones zero = 0
ones (suc k) = 2 * ones k + 1

-- Taking a word from all ones flips its bits.
pub bit-ones_sub : (i k m : ℕ) → i < k → m ≤ ones k → bit i (ones k - m) ≡ 1 - bit i m
bit-ones_sub i zero m h le = absurd (omega arith)
bit-ones_sub zero (suc k) m h le = omega arith
bit-ones_sub (suc i) (suc k) m h le =
    let half : (2 * ones k + 1 - m) / 2 ≡ ones k - m / 2 = omega arith in
    rw half (bit-ones_sub i k (m / 2) (omega arith) (omega arith))

-- A word below `2 ^ k` has only zeros from bit `k` on, and every such word is below it.
pub bit-high : (k i x : ℕ) → x ≤ ones k → k ≤ i → bit i x ≡ 0
bit-high zero zero x h le = omega arith
bit-high zero (suc i) x h le = bit-high zero i (x / 2) (omega arith) (omega arith)
bit-high (suc k) zero x h le = absurd (omega arith)
bit-high (suc k) (suc i) x h le = bit-high k i (x / 2) (omega arith) (omega arith)

-- A word without bits is zero, and one without bits from `k` on is below `2 ^ k`.
no_bits : (n x : ℕ) → x ≤ n → ((i : ℕ) → bit i x ≡ 0) → x ≡ 0
no_bits zero x le none = omega arith
no_bits (suc n) zero le none = refl
no_bits (suc n) (suc x) le none =
    let half = no_bits n (suc x / 2) (omega arith) (λ i. none (suc i)) in
    omega (arith, half, none 0)

le_of_bits : (k x : ℕ) → ((i : ℕ) → k ≤ i → bit i x ≡ 0) → x ≤ ones k
le_of_bits zero x none =
    let nothing = no_bits x x (le_refl x) (λ i. none i (omega arith)) in omega arith
le_of_bits (suc k) x none =
    let half = le_of_bits k (x / 2) (λ i le. none (suc i) (omega arith)) in omega arith

pub bit_or_le : (k a b : ℕ) → a ≤ ones k → b ≤ ones k → bit_or a b ≤ ones k
bit_or_le k a b p q =
    le_of_bits k (bit_or a b)
      (λ i le. omega (arith, bit-bit_or i a b, bit-high k i a p le, bit-high k i b q le))

pub bit_and_le : (k a b : ℕ) → a ≤ ones k → bit_and a b ≤ ones k
bit_and_le k a b p =
    le_of_bits k (bit_and a b) (λ i le. omega (arith, bit-bit_and i a b, bit-high k i a p le))

pub bit_and_le_right : (k a b : ℕ) → b ≤ ones k → bit_and a b ≤ ones k
bit_and_le_right k a b q =
    le_of_bits k (bit_and a b) (λ i le. omega (arith, bit-bit_and i a b, bit-high k i b q le))

-- ===== src/Gamepad/Buttons.antt =====
-- The operations on the button word, bit by bit, and the ranges of the snapshot.
use lookauniversalremote.Prelude.{
  ℕ, ◌-◌, ◌≤◌, ◌<◌, ◌≡◌, refl, ap, ◌∙◌, arith, min, bit_and, bit_or, Bool, true, false, zero, suc,
  ◌==◌, if◌then◌else◌, ltb,
}
use lookauniversalremote.Prelude.Bits.{
  bit, bit-high, bit-le, bit-bit_or, bit-bit_and, ones, bit-ones_sub,
}
use lookauniversalremote.Gamepad.State.{
  GamepadState, set_button, set_dpad, clear_bits, dpad_all_mask,
}

-- The source's words and masks are below 2^31.
abbrev pub IsWord : ℕ → Type 0
IsWord w = w ≤ ones 31

bit-clear_bits :
    (i w m : ℕ) → i < 32 → IsWord m → bit i (clear_bits w m) ≡ min (bit i w) (1 - bit i m)
unfolding clear_bits
bit-clear_bits i w m h le =
    bit-bit_and i w (ones 32 - m) ∙ ap (λ t. min (bit i w) t) (bit-ones_sub i 32 m h (omega arith))

-- The bit `i` of a word after the bits of a mask are set or cleared.
abbrev written_bit : ℕ → ℕ → Bool → ℕ → ℕ
written_bit i mask pressed old = if bit i mask == 1 then (if pressed then 1 else 0) else bit i old

press_bits : (i w m : ℕ) → bit i (bit_or w m) ≡ written_bit i m true w
press_bits i w m = ground (arith, bit-bit_or i w m, bit-le i w, bit-le i m)

release_bits : (i w m : ℕ) → i < 32 → IsWord m → bit i (clear_bits w m) ≡ written_bit i m false w
release_bits i w m h le = ground (arith, bit-clear_bits i w m h le, bit-le i w, bit-le i m)

-- Pressing turns on exactly the bits of the mask, releasing turns exactly these off, for every mask
-- below 2^31 and every bit of the word.
pub set_button-bit :
    (i mask : ℕ) (pressed : Bool) (s : GamepadState)
    → i < 32
    → IsWord mask
    → bit i (set_button mask pressed s).buttons
      ≡ (if bit i mask == 1 then (if pressed then 1 else 0) else bit i s.buttons)
unfolding set_button
set_button-bit i mask true s h le = press_bits i s.buttons mask
set_button-bit i mask false s h le = release_bits i s.buttons mask h le

dpad_bits : (i : ℕ) → bit i dpad_all_mask ≡ (if ltb i 4 then 1 else 0)
dpad_bits zero = refl
dpad_bits (suc zero) = refl
dpad_bits (suc (suc zero)) = refl
dpad_bits (suc (suc (suc zero))) = refl
dpad_bits (suc (suc (suc (suc i)))) = ground (arith, bit-high 0 i 0 (omega arith) (omega arith))

-- `setDPad` replaces the four direction bits by those of the mask and keeps every other button; in
-- particular bits of the mask outside the four are ignored.
pub set_dpad-bit :
    (i mask : ℕ) (s : GamepadState)
    → i < 32
    → bit i (set_dpad mask s).buttons ≡ (if ltb i 4 then bit i mask else bit i s.buttons)
unfolding set_dpad
set_dpad-bit i mask s h = ground (
  arith,
  bit-bit_or i (clear_bits s.buttons dpad_all_mask) (bit_and mask dpad_all_mask),
  bit-clear_bits i s.buttons dpad_all_mask h (omega arith),
  bit-bit_and i mask dpad_all_mask,
  dpad_bits i,
  bit-le i mask,
  bit-le i s.buttons,
)

-- ===== src/Keyboard/Modifiers.antt =====
-- HidKeyMapper.ts: `ModifierMask` and `buildModifierMask`.
use lookauniversalremote.Prelude.{ℕ, ◌+◌, ◌≤◌, ◌≡◌, arith, Bool, if◌then◌else◌, bit_or}
use lookauniversalremote.Prelude.Bits.{bit, bit-high}

abbrev pub ctrl_mask : ℕ
ctrl_mask = 0x01

abbrev pub shift_mask : ℕ
shift_mask = 0x02

abbrev pub alt_mask : ℕ
alt_mask = 0x04

abbrev pub meta_mask : ℕ
meta_mask = 0x08

unfoldable pub build_modifier_mask : Bool → Bool → Bool → Bool → ℕ
build_modifier_mask ctrl shift alt meta =
    let mask1 = if ctrl then bit_or 0 ctrl_mask else 0 in
    let mask2 = if shift then bit_or mask1 shift_mask else mask1 in
    let mask3 = if alt then bit_or mask2 alt_mask else mask2 in
    if meta then bit_or mask3 meta_mask else mask3

mask-le : (ctrl shift alt meta : Bool) → build_modifier_mask ctrl shift alt meta ≤ 15
unfolding build_modifier_mask
mask-le ctrl shift alt meta = ground arith

-- The mask has bit 0 for control, 1 for shift, 2 for alt, 3 for meta, each as the argument says, and
-- no other bit.
pub build_modifier_mask-bits :
    (ctrl shift alt meta : Bool) (i : ℕ)
    → let mask = build_modifier_mask ctrl shift alt meta in
      (bit 0 mask ≡ (if ctrl then 1 else 0))
      × (bit 1 mask ≡ (if shift then 1 else 0))
      × (bit 2 mask ≡ (if alt then 1 else 0))
      × (bit 3 mask ≡ (if meta then 1 else 0))
      × (bit (4 + i) mask ≡ 0)
unfolding build_modifier_mask
build_modifier_mask-bits ctrl shift alt meta i = (
  ground arith,
  ground arith,
  ground arith,
  ground arith,
  bit-high 4 (4 + i) _ (mask-le ctrl shift alt meta) (omega arith),
)

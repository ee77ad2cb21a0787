-- ===== src/Gamepad/Range.antt =====
-- Every snapshot of the gamepad state fits the wire.
use lookauniversalremote.Prelude.{
  ℕ, ◌≤◌, ◌≡◌, refl, ap, ◌∙◌, arith, ℤ, pos, Bool, true, false, List, [], ◌∷◌, All, some, IsU8,
  IsI16, max_ℤ, min_ℤ, word8-IsU8, word16-IsU16, word16-IsI16, word8,
}
use lookauniversalremote.Prelude.Bits.{ones, bit_or_le, bit_and_le, bit_and_le_right}
use lookauniversalremote.Prelude.Ratio.{Ratio, round}
use lookauniversalremote.Protocol.Types.{gamepad_full}
use lookauniversalremote.Protocol.View.{TextCodec}
use lookauniversalremote.Protocol.Encoder.Frames.{frame}
use lookauniversalremote.Protocol.Reader.{ok, array_buffer}
use lookauniversalremote.Protocol.Decoder.{decode_packet}
use lookauniversalremote.Protocol.Decoder.RoundTrip.{as_sent, sent_header, decode-frame}
use lookauniversalremote.Gamepad.State.{
  GamepadState, Side, left, right, set_button, set_dpad, set_bumper, set_left_stick,
  set_right_stick, set_trigger, reset_all, clear_bits, dpad_all_mask, clamp_trigger, get_snapshot,
  initial,
}

-- The operations of the hook, with their arguments.
pub data Operation : Type 0 where
  button : ℕ → Bool → Operation
  dpad : ℕ → Operation
  left_stick right_stick : ℤ → ℤ → Operation
  trigger : Side → Ratio → Operation
  bumper : Side → Bool → Operation
  reset : Operation

unfoldable pub apply : Operation → GamepadState → GamepadState
apply (button mask pressed) s = set_button mask pressed s
apply (dpad mask) s = set_dpad mask s
apply (left_stick x y) s = set_left_stick x y s
apply (right_stick x y) s = set_right_stick x y s
apply (trigger side value) s = set_trigger side value s
apply (bumper side pressed) s = set_bumper side pressed s
apply reset s = reset_all s

-- What the views pass: 16-bit masks, stick positions in the signed 16-bit range.
abbrev pub IsProper : Operation → Type 0
IsProper (button mask pressed) = mask ≤ ones 16
IsProper (dpad mask) = Unit
IsProper (left_stick x y) = IsI16 x × IsI16 y
IsProper (right_stick x y) = IsI16 x × IsI16 y
IsProper (trigger side value) = Unit
IsProper (bumper side pressed) = Unit
IsProper reset = Unit

pub record InRange (s : GamepadState) : Type 0 where
  pub buttons_ok : s.buttons ≤ ones 16
  pub lx_ok : IsI16 s.stick_lx
  pub ly_ok : IsI16 s.stick_ly
  pub rx_ok : IsI16 s.stick_rx
  pub ry_ok : IsI16 s.stick_ry
  pub trigger_l_ok : IsU8 s.trigger_l
  pub trigger_r_ok : IsU8 s.trigger_r
  pub reserved_ok : IsU8 s.reserved

initial-InRange : InRange initial
unfolding initial
initial-InRange = ground arith

clamp_byte : (v : ℤ) → IsU8 (max_ℤ (pos 0) (min_ℤ (pos 255) v))
unfolding max_ℤ min_ℤ
clamp_byte v = ground arith

clamp_trigger-IsU8 : (value : Ratio) → IsU8 (clamp_trigger value)
unfolding clamp_trigger
clamp_trigger-IsU8 value = clamp_byte (round value)

with_buttons :
    (s : GamepadState) (w : ℕ) → InRange s → w ≤ ones 16 → InRange (record s { buttons = w })
with_buttons s w h le = ground arith

apply-InRange : (op : Operation) (s : GamepadState) → IsProper op → InRange s → InRange (apply op s)
unfolding apply set_button set_dpad set_left_stick set_right_stick set_trigger set_bumper reset_all
    clear_bits initial
apply-InRange (button mask true) s p h =
    with_buttons s _ h (bit_or_le 16 s.buttons mask h.buttons_ok p)
apply-InRange (button mask false) s p h =
    with_buttons s _ h (bit_and_le 16 s.buttons _ h.buttons_ok)
apply-InRange (dpad mask) s p h = with_buttons s _ h (
    bit_or_le 16 _ _ (bit_and_le 16 s.buttons _ h.buttons_ok)
      (bit_and_le_right 16 mask dpad_all_mask (omega arith)))
apply-InRange (left_stick x y) s p h = ground arith
apply-InRange (right_stick x y) s p h = ground arith
apply-InRange (trigger left value) s p h = ground (arith, clamp_trigger-IsU8 value)
apply-InRange (trigger right value) s p h = ground (arith, clamp_trigger-IsU8 value)
apply-InRange (bumper left true) s p h =
    with_buttons s _ h (bit_or_le 16 s.buttons _ h.buttons_ok (omega arith))
apply-InRange (bumper left false) s p h =
    with_buttons s _ h (bit_and_le 16 s.buttons _ h.buttons_ok)
apply-InRange (bumper right true) s p h =
    with_buttons s _ h (bit_or_le 16 s.buttons _ h.buttons_ok (omega arith))
apply-InRange (bumper right false) s p h =
    with_buttons s _ h (bit_and_le 16 s.buttons _ h.buttons_ok)
apply-InRange reset s p h = initial-InRange

snapshot_kept :
    (codec : TextCodec) (s : GamepadState)
    → InRange s
    → as_sent codec (gamepad_full (get_snapshot s))
      ≡ gamepad_full (record (get_snapshot s) { player_index = some (pos 0) })
unfolding get_snapshot word8
snapshot_kept codec s h =
    rw
      (
        word16-IsU16 (pos s.buttons) (omega (arith, h.buttons_ok)),
        word16-IsI16 s.stick_lx h.lx_ok,
        word16-IsI16 s.stick_ly h.ly_ok,
        word16-IsI16 s.stick_rx h.rx_ok,
        word16-IsI16 s.stick_ry h.ry_ok,
        word8-IsU8 s.trigger_l h.trigger_l_ok,
        word8-IsU8 s.trigger_r h.trigger_r_ok,
        word8-IsU8 s.reserved h.reserved_ok,
      )
      refl

-- The operations in order.
abbrev pub run : List Operation → GamepadState → GamepadState
run [] s = s
run (op ∷ ops) s = run ops (apply op s)

run-InRange :
    (ops : List Operation) (s : GamepadState) → All IsProper ops → InRange s → InRange (run ops s)
run-InRange [] s p h = h
run-InRange (op ∷ ops) s p h = run-InRange ops (apply op s) p.1 (apply-InRange op s p.0 h)

-- After any operations with 16-bit masks and stick positions in the signed 16-bit range, and any
-- trigger values, a snapshot is sent with no loss: the host decodes exactly the state's numbers,
-- with player index 0.
pub decode-snapshot :
    (codec : TextCodec) (seq flags : ℤ) (ops : List Operation)
    → All IsProper ops
    → let s = run ops initial in
      decode_packet codec (array_buffer (frame codec seq flags (gamepad_full (get_snapshot s))))
      ≡ ok (record {
        header = sent_header codec seq flags (gamepad_full (get_snapshot s));
        payload = gamepad_full (record (get_snapshot s) { player_index = some (pos 0) });
      })
decode-snapshot codec seq flags ops proper =
    let s = run ops initial in
    decode-frame codec seq flags (gamepad_full (get_snapshot s))
    ∙ ap
        (λ p. ok (record {
          header = sent_header codec seq flags (gamepad_full (get_snapshot s));
          payload = p;
        }))
        (snapshot_kept codec s (run-InRange ops initial proper initial-InRange))

-- ===== src/Protocol/Sequence.antt =====
-- sequence.ts: 16-bit sequence numbers, the receiver's tracker and the sender's generator.
pub mod Window
use lookauniversalremote.Prelude.{
  ℕ, ◌+◌, ℤ, pos, ◌-ℤ◌, word16, Bool, true, false, ◌&&◌, ltb, if◌then◌else◌, Option, none, some,
}

abbrev pub sequence_window_max : ℕ
sequence_window_max = 32768

-- `x & 0xffff` is `word16 x`, for negative `x` too.
unfoldable pub is_valid_sequence_advance : ℤ → ℤ → Bool
unfolding ◌-ℤ◌ word16
is_valid_sequence_advance latest incoming =
    let diff = word16 (incoming -ℤ latest) in ltb 0 diff && ltb diff sequence_window_max

pub record SequenceTracker : Type 0 where
  pub latest_word : ℕ
  pub initialized : Bool

unfoldable pub new_tracker : Option ℤ → SequenceTracker
new_tracker none = record { latest_word = 0; initialized = false }
new_tracker (some initial) = record { latest_word = word16 initial; initialized = true }

unfoldable pub latest : SequenceTracker → Option ℕ
latest t = if t.initialized then some t.latest_word else none

unfoldable pub reset : SequenceTracker → SequenceTracker
reset t = record { latest_word = 0; initialized = false }

unfoldable pub check : SequenceTracker → ℤ → Bool
unfolding is_valid_sequence_advance
check t incoming =
    if t.initialized
    then is_valid_sequence_advance (pos t.latest_word) (pos (word16 incoming))
    else true

unfoldable pub check_and_update : SequenceTracker → ℤ → SequenceTracker × Bool
unfolding is_valid_sequence_advance
check_and_update t incoming =
    let seq = word16 incoming in
    if t.initialized
    then (if is_valid_sequence_advance (pos t.latest_word) (pos seq)
        then (record t { latest_word = seq }, true)
        else (t, false))
    else (record { latest_word = seq; initialized = true }, true)

pub record SequenceGenerator : Type 0 where
  pub current : ℕ

unfoldable pub new_generator : ℤ → SequenceGenerator
new_generator start = record { current = word16 start }

unfoldable pub next : SequenceGenerator → SequenceGenerator × ℕ
unfolding word16
next g = (record { current = word16 (pos (g.current + 1)) }, g.current)

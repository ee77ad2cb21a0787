-- ===== src/Protocol/Reader.antt =====
-- decoder.ts, its base: errors, results, the typed reads of a view, and `toDataView`. Every `throw`
-- is a value of `DecodeError`; the texts of the messages are left out, the numbers in them kept.
use lookauniversalremote.Prelude.{ℕ, ℤ, pos, List, Option, none, some, length, signed8, signed16}
use lookauniversalremote.Protocol.View.{DataView, get_uint8, get_uint16, get_uint32}

pub data DecodeError : Type 0 where
  invalid_input : DecodeError
  too_short : ℕ → DecodeError
  bad_version : ℕ → DecodeError
  bad_size : ℕ → ℕ → DecodeError
  unknown_type : ℕ → DecodeError
  -- a RangeError of a read past the end of the view
  range_error : DecodeError

pub data Result {ℓ} (A : Type ℓ) : Type ℓ where
  ok : A → Result A
  throw : DecodeError → Result A

infixl 5 ◌>>=◌ ◌>>◌
abbrev pub ◌>>=◌ : {A B : Type 0} → Result A → (A → Result B) → Result B
ok a >>= k = k a
throw e >>= k = throw e

abbrev pub ◌>>◌ : {B : Type 0} → Result (Unit {0}) → Result B → Result B
m >> k = m >>= λ _. k

-- A read of the view.
abbrev pub read : Option ℕ → Result ℕ
read none = throw range_error
read (some w) = ok w

unfoldable pub u8 : DataView → ℕ → Result ℤ
unfolding get_uint8
u8 view i = do w ← read (get_uint8 i view); ok (pos w)

unfoldable pub i8 : DataView → ℕ → Result ℤ
unfolding get_uint8
i8 view i = do w ← read (get_uint8 i view); ok (signed8 w)

unfoldable pub u16 : DataView → ℕ → Result ℤ
unfolding get_uint16
u16 view i = do w ← read (get_uint16 i view); ok (pos w)

unfoldable pub i16 : DataView → ℕ → Result ℤ
unfolding get_uint16
i16 view i = do w ← read (get_uint16 i view); ok (signed16 w)

unfoldable pub u32 : DataView → ℕ → Result ℤ
unfolding get_uint32
u32 view i = do w ← read (get_uint32 i view); ok (pos w)

-- What `input` may be.
pub data Input : Type 0 where
  data_view : DataView → Input
  array_buffer : List ℕ → Input
  -- a typed array: its buffer, byteOffset and byteLength
  array_view : List ℕ → ℕ → ℕ → Input
  other : Input

unfoldable pub to_data_view : Input → Result DataView
to_data_view (data_view v) = ok v
to_data_view (array_buffer b) = ok (record { buffer = b; byte_offset = 0; byte_length = length b })
to_data_view (array_view b offset len) =
    ok (record { buffer = b; byte_offset = offset; byte_length = len })
to_data_view other = throw invalid_input

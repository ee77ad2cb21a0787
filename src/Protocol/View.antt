-- ===== src/Protocol/View.antt =====
-- What the codecs use of the platform: `DataView` over an `ArrayBuffer`, and the text codec.
-- A buffer is the list of its bytes. An access out of range throws a RangeError, here `none`.
use lookauniversalremote.Prelude.{
  ℕ, ◌+◌, ◌*◌, ◌/◌, ◌%◌, ◌<◌, ◌≡◌, ℤ, List, Option, none, some, if◌then◌else◌, ltb, get_elem?, set?,
  take, drop, All, word8, word16, word32,
}
use lookauniversalremote.Protocol.Types.{Text}

-- A write into the buffer of an encoder, and its composition with what follows.
abbrev pub Write : Type 0 → Type 0
Write A = List ℕ → Option A

infixl 5 ◌>>◌
abbrev pub ◌>>◌ : {A : Type 0} → Write (List ℕ) → Write A → Write A
◌>>◌ m k b = elim (m b) [ none ↦ none | some b' ↦ k b' ]

pub put_byte : ℕ → ℕ → Write (List ℕ)
put_byte i w b = set? b i w

-- `setUint8` and `setInt8` store the same byte; so for the wider ones, little-endian.
unfoldable pub set_uint8 : ℕ → ℤ → Write (List ℕ)
unfolding put_byte
set_uint8 i v = put_byte i (word8 v)

unfoldable pub set_int8 : ℕ → ℤ → Write (List ℕ)
unfolding put_byte
set_int8 i v = put_byte i (word8 v)

put_word16 : ℕ → ℕ → Write (List ℕ)
unfolding put_byte
put_word16 i w = do put_byte i (w % 256); put_byte (i + 1) (w / 256)

unfoldable pub set_uint16 : ℕ → ℤ → Write (List ℕ)
unfolding put_word16
set_uint16 i v = put_word16 i (word16 v)

unfoldable pub set_int16 : ℕ → ℤ → Write (List ℕ)
unfolding put_word16
set_int16 i v = put_word16 i (word16 v)

put_word32 : ℕ → ℕ → Write (List ℕ)
unfolding put_word16
put_word32 i w = do put_word16 i (w % 65536); put_word16 (i + 2) (w / 65536)

unfoldable pub set_uint32 : ℕ → ℤ → Write (List ℕ)
unfolding put_word32
set_uint32 i v = put_word32 i (word32 v)

-- `new DataView(buffer, byteOffset, byteLength)`.
pub record DataView : Type 0 where
  pub buffer : List ℕ
  pub byte_offset : ℕ
  pub byte_length : ℕ

-- The bytes that a view shows.
abbrev pub view_bytes : DataView → List ℕ
view_bytes v = take v.byte_length (drop v.byte_offset v.buffer)

unfoldable pub get_uint8 : ℕ → DataView → Option ℕ
get_uint8 i v = if ltb i v.byte_length then get_elem? v.buffer (v.byte_offset + i) else none

infixl 5 ◌>>=◌
abbrev pub ◌>>=◌ : {A B : Type 0} → Option A → (A → Option B) → Option B
none >>= k = none
some a >>= k = k a

unfoldable pub get_uint16 : ℕ → DataView → Option ℕ
unfolding get_uint8
get_uint16 i v = do lo ← get_uint8 i v; hi ← get_uint8 (i + 1) v; some (lo + 256 * hi)

unfoldable pub get_uint32 : ℕ → DataView → Option ℕ
unfolding get_uint16
get_uint32 i v = do lo ← get_uint16 i v; hi ← get_uint16 (i + 2) v; some (lo + 65536 * hi)

-- `new Uint8Array(view.buffer, view.byteOffset + i, n)`: it looks at the buffer, not at the view.
unfoldable pub sub_array : ℕ → ℕ → DataView → List ℕ
sub_array i n v = take n (drop (v.byte_offset + i) v.buffer)

-- `TextEncoder` and `TextDecoder` (UTF-8), of which ASCII and the byte range are used.
abbrev pub IsAscii : Text → Type 0
IsAscii = All (λ c. c < 128)

pub record TextCodec : Type 0 where
  pub encode : Text → List ℕ
  pub decode : List ℕ → Text
  pub encode_bytes : (s : Text) → All (λ c. c < 256) (encode s)
  pub encode_ascii : (s : Text) → IsAscii s → encode s ≡ s
  pub decode_ascii : (s : Text) → IsAscii s → decode s ≡ s

-- ===== src/Pairing/RoundTrip.antt =====
-- Bytes come back from their hex text.
use lookauniversalremote.Prelude.{
  ℕ, ◌+◌, ◌*◌, ◌/◌, ◌%◌, ◌<◌, ◌≡◌, refl, ap, ◌∙◌, arith, ◌==◌, leb, Bool, true, false, ◌&&◌, ◌||◌,
  pos, word8, List, [], ◌∷◌, All, none, some,
}
use lookauniversalremote.Protocol.Types.{Text}
use lookauniversalremote.Pairing.{
  is_space, trim_start, trim_end, hex_value, leading_value, parse_magnitude, parse_int_16, digit_of,
  byte_text, bytes_to_hex, bytes_of_pairs, hex_to_bytes, signed_value,
}

-- The digits that `toString(16)` writes.
abbrev pub IsHexDigit : ℕ → Type 0
IsHexDigit c = (leb 48 c && leb c 57) || (leb 97 c && leb c 102) ≡ true

digit_of-IsHexDigit : (d : ℕ) → d < 16 → IsHexDigit (digit_of d)
unfolding digit_of
digit_of-IsHexDigit d h = ground arith

hex_digit-no_space : (c : ℕ) → IsHexDigit c → is_space c ≡ false
unfolding is_space
hex_digit-no_space c h = ground arith

hex_value-digit_of : (d : ℕ) → d < 16 → hex_value (digit_of d) ≡ some d
unfolding hex_value digit_of
hex_value-digit_of d h = ground arith

bytes_to_hex-digits : (bs : List ℕ) → All (λ b. b < 256) bs → All IsHexDigit (bytes_to_hex bs)
unfolding bytes_to_hex byte_text
bytes_to_hex-digits [] h = tt
bytes_to_hex-digits (b ∷ bs) h = (
  digit_of-IsHexDigit (b / 16) (omega (arith, h.0)),
  (digit_of-IsHexDigit (b % 16) (omega arith), bytes_to_hex-digits bs h.1),
)

trim_start-kept : (s : Text) → All IsHexDigit s → trim_start s ≡ s
unfolding trim_start
trim_start-kept [] h = refl
trim_start-kept (c ∷ s) h = rw (hex_digit-no_space c h.0) refl

trim_end-kept : (s : Text) → All IsHexDigit s → trim_end s ≡ s
unfolding trim_end
trim_end-kept [] h = refl
trim_end-kept (c ∷ s) h = rw (hex_digit-no_space c h.0) (ap (λ t. c ∷ t) (trim_end-kept s h.1))

no_prefix : (d : ℕ) → IsHexDigit d → (d == 120 || d == 88) ≡ false
no_prefix d h = ground arith

no_sign : (c k : ℕ) → IsHexDigit c → k < 48 → (c == k) ≡ false
no_sign c k h lt = ground arith

and_false : (t : Bool) → (t && false) ≡ false
and_false true = refl
and_false false = refl

-- Two hexadecimal digits are read as their number.
parse_int_16-digits :
    (c d u v : ℕ)
    → IsHexDigit c
    → IsHexDigit d
    → hex_value c ≡ some u
    → hex_value d ≡ some v
    → parse_int_16 (c ∷ d ∷ []) ≡ some (pos (u * 16 + v))
unfolding parse_int_16 signed_value parse_magnitude leading_value
parse_int_16-digits c d u v hc hd ec ed =
    ap signed_value (trim_start-kept (c ∷ d ∷ []) (hc, (hd, tt)))
    ∙ rw
        (
          no_sign c 45 hc (omega arith),
          no_sign c 43 hc (omega arith),
          no_prefix d hd,
          and_false (c == 48),
          ec,
          ed,
          leading_value,
        )
        refl

parse_int_16-byte : (b : ℕ) → b < 256 → parse_int_16 (byte_text b) ≡ some (pos b)
unfolding byte_text
parse_int_16-byte b h =
    let high : b / 16 < 16 = omega (arith, h) in
    let low : b % 16 < 16 = omega arith in
    parse_int_16-digits (digit_of (b / 16)) (digit_of (b % 16)) (b / 16) (b % 16)
      (digit_of-IsHexDigit (b / 16) high) (digit_of-IsHexDigit (b % 16) low)
      (hex_value-digit_of (b / 16) high) (hex_value-digit_of (b % 16) low)
    ∙ ap (λ n. some (pos n)) (omega arith)

bytes_of_pairs-bytes_to_hex :
    (bs : List ℕ) → All (λ b. b < 256) bs → bytes_of_pairs (bytes_to_hex bs) ≡ some bs
unfolding bytes_of_pairs bytes_to_hex byte_text word8
bytes_of_pairs-bytes_to_hex [] h = refl
bytes_of_pairs-bytes_to_hex (b ∷ bs) h =
    rw (parse_int_16-byte b h.0, bytes_of_pairs-bytes_to_hex bs h.1, bytes_of_pairs)
      (ap (λ n. some (n ∷ bs)) (omega (arith, h.0)))

-- Bytes that are written as hex text and read again are the same, as long as `toLowerCase` leaves
-- texts of decimal digits and small letters as they are.
pub hex_to_bytes-bytes_to_hex :
    (lower : Text → Text) (bs : List ℕ)
    → ((s : Text) → All IsHexDigit s → lower s ≡ s)
    → All (λ b. b < 256) bs
    → hex_to_bytes lower (bytes_to_hex bs) ≡ some bs
unfolding hex_to_bytes
hex_to_bytes-bytes_to_hex lower bs lower_kept h =
    let digits = bytes_to_hex-digits bs h in
    let text = bytes_to_hex bs in
    ap (λ t. bytes_of_pairs (lower (trim_end t))) (trim_start-kept text digits)
    ∙ ap (λ t. bytes_of_pairs (lower t)) (trim_end-kept text digits)
    ∙ ap bytes_of_pairs (lower_kept text digits)
    ∙ bytes_of_pairs-bytes_to_hex bs h

module _ (c d u : ℕ) (hc : IsHexDigit c) (ec : hex_value c ≡ some u) (ed : hex_value d ≡ none)
    (plain : (d == 120 || d == 88) ≡ false) where
  parse_int_16-prefix : parse_int_16 (c ∷ d ∷ []) ≡ some (pos u)
  unfolding parse_int_16 trim_start signed_value parse_magnitude leading_value
  parse_int_16-prefix =
      rw
        (
          hex_digit-no_space c hc,
          no_sign c 45 hc (omega arith),
          no_sign c 43 hc (omega arith),
          plain,
          and_false (c == 48),
          ec,
          ed,
          leading_value,
        )
        refl

  trimmed : is_space d ≡ false → trim_end (trim_start (c ∷ d ∷ [])) ≡ c ∷ d ∷ []
  unfolding trim_start trim_end
  trimmed visible = rw (hex_digit-no_space c hc, visible, and_false (is_space c)) refl

  one_pair : u < 256 → bytes_of_pairs (c ∷ d ∷ []) ≡ some (u ∷ [])
  unfolding bytes_of_pairs word8
  one_pair lt =
      rw (parse_int_16-prefix, bytes_of_pairs) (ap (λ n. some (n ∷ [])) (omega (arith, lt)))

-- A text of two characters that `toLowerCase` leaves as it is, a digit or one of a to f and then a
-- character that is no hexadecimal digit, white space or x, is not refused: it is read as the first
-- digit alone.
pub hex_to_bytes-lenient :
    (lower : Text → Text) (c d u : ℕ)
    → IsHexDigit c
    → hex_value c ≡ some u
    → u < 256
    → hex_value d ≡ none
    → is_space d ≡ false
    → (d == 120 || d == 88) ≡ false
    → lower (c ∷ d ∷ []) ≡ c ∷ d ∷ []
    → hex_to_bytes lower (c ∷ d ∷ []) ≡ some (u ∷ [])
unfolding hex_to_bytes
hex_to_bytes-lenient lower c d u hc ec lt ed visible plain same =
    ap (λ t. bytes_of_pairs (lower t)) (trimmed c d u hc ec ed plain visible)
    ∙ ap bytes_of_pairs same
    ∙ one_pair c d u hc ec ed plain lt

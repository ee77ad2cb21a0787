-- ===== src/Pairing.antt =====
-- apps/web-client/src/features/pairing/pairingCrypto.ts: the hex texts of keys and nonces.
pub mod RoundTrip
pub mod Handshake
pub mod Manager
pub mod Agreement
use lookauniversalremote.Prelude.{
  ℕ, zero, suc, ◌+◌, ◌-◌, ◌*◌, ◌/◌, ◌%◌, ◌==◌, ltb, leb, if◌then◌else◌, Bool, true, false, ◌&&◌,
  ◌||◌, ℤ, pos, negsuc, word8, List, [], ◌∷◌, ◌++◌, length, Option, none, some,
}
use lookauniversalremote.Protocol.Types.{Text}

-- The white space of `trim` and `parseInt`.
unfoldable pub is_space : ℕ → Bool
is_space c =
    (leb 9 c && leb c 13)
    || (c == 32
        || (c == 160
            || (c == 0x1680
                || ((leb 0x2000 c && leb c 0x200a)
                    || (c == 0x2028
                        || (c == 0x2029
                            || (c == 0x202f || (c == 0x205f || (c == 0x3000 || c == 0xfeff)))))))))

unfoldable pub trim_start : Text → Text
unfolding is_space
trim_start [] = []
trim_start (c ∷ s) = let rest = trim_start s in if is_space c then rest else c ∷ s

unfoldable pub trim_end : Text → Text
unfolding is_space
trim_end [] = []
trim_end (c ∷ s) = let rest = trim_end s in if is_space c && length rest == 0 then [] else c ∷ rest

-- The digits 0 to 9 and a to f, A to F.
unfoldable pub hex_value : ℕ → Option ℕ
hex_value c =
    if leb 48 c && leb c 57
    then some (c - 48)
    else if leb 97 c && leb c 102
    then some (c - 87)
    else if leb 65 c && leb c 70
    then some (c - 55)
    else none

-- The number of the digits at the beginning, after those that gave `value`.
unfoldable pub leading_value : ℕ → Text → ℕ
unfolding hex_value
leading_value value [] = value
leading_value value (c ∷ s) = elim (hex_value c) [
  | none ↦ value
  | some d ↦ leading_value (value * 16 + d) s
]

-- `parseInt(s, 16)` after white space and sign; `none` is NaN. A prefix 0x is skipped.
unfoldable pub parse_magnitude : Text → Option ℕ
unfolding hex_value leading_value
parse_magnitude [] = none
parse_magnitude (c ∷ []) = hex_value c
parse_magnitude (c ∷ x ∷ []) =
    if c == 48 && (x == 120 || x == 88)
    then none
    else (elim (hex_value c) [ none ↦ none | some d ↦ some (leading_value d (x ∷ [])) ])
parse_magnitude (c ∷ x ∷ y ∷ s) =
    if c == 48 && (x == 120 || x == 88)
    then (elim (hex_value y) [ none ↦ none | some d ↦ some (leading_value d s) ])
    else (elim (hex_value c) [ none ↦ none | some d ↦ some (leading_value d (x ∷ y ∷ s)) ])

negated : ℕ → ℤ
negated zero = pos 0
negated (suc n) = negsuc n

signed_value : Text → Option ℤ
unfolding parse_magnitude negated
signed_value [] = none
signed_value (c ∷ s) =
    if c == 45
    then (elim (parse_magnitude s) [ none ↦ none | some n ↦ some (negated n) ])
    else (elim (parse_magnitude (if c == 43 then s else c ∷ s)) [
      | none ↦ none
      | some n ↦ some (pos n)
    ])

unfoldable pub parse_int_16 : Text → Option ℤ
unfolding trim_start signed_value
parse_int_16 s = signed_value (trim_start s)

-- The digit of a value below 16.
unfoldable pub digit_of : ℕ → ℕ
digit_of d = if ltb d 10 then 48 + d else 87 + d

-- `b.toString(16).padStart(2, '0')` of a byte.
unfoldable pub byte_text : ℕ → Text
unfolding digit_of
byte_text b = digit_of (b / 16) ∷ digit_of (b % 16) ∷ []

unfoldable pub bytes_to_hex : List ℕ → Text
unfolding byte_text
bytes_to_hex [] = []
bytes_to_hex (b ∷ bs) = byte_text b ++ bytes_to_hex bs

-- The loop of `hexToBytes` over the rest of the text; `none` is an error, also for an odd length.
unfoldable pub bytes_of_pairs : Text → Option (List ℕ)
unfolding parse_int_16 word8
bytes_of_pairs [] = some []
bytes_of_pairs (c ∷ []) = none
bytes_of_pairs (c ∷ d ∷ s) = elim (parse_int_16 (c ∷ d ∷ [])) [
  | none ↦ none
  | some n ↦ elim (bytes_of_pairs s) [ none ↦ none | some bs ↦ some (word8 n ∷ bs) ]
]

-- `toLowerCase` is the parameter `lower`.
unfoldable pub hex_to_bytes : (lower : Text → Text) → Text → Option (List ℕ)
unfolding trim_start trim_end bytes_of_pairs
hex_to_bytes lower hex = bytes_of_pairs (lower (trim_end (trim_start hex)))

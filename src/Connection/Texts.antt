-- ===== src/Connection/Texts.antt =====
-- The operations on strings, the patterns and the numbers that HostConnectionManager.ts uses.
use lookauniversalremote.Prelude.{
  ℕ, zero, suc, ◌+◌, ◌-◌, ◌*◌, ◌/◌, ◌%◌, ◌==◌, ltb, leb, if◌then◌else◌, Bool, true, false, not,
  ◌&&◌, ◌||◌, ℤ, pos, negsuc, [], ◌∷◌, ◌++◌, length, drop, Option, none, some,
}
use lookauniversalremote.Protocol.Types.{Text}
use lookauniversalremote.Pairing.{trim_start}

abbrev pub text_eq : Text → Text → Bool
text_eq [] [] = true
text_eq [] (d ∷ t) = false
text_eq (c ∷ s) [] = false
text_eq (c ∷ s) (d ∷ t) = c == d && text_eq s t

abbrev pub starts_with : Text → Text → Bool
starts_with [] s = true
starts_with (d ∷ t) [] = false
starts_with (d ∷ t) (c ∷ s) = c == d && starts_with t s

abbrev pub ends_with : Text → Text → Bool
ends_with t s = leb (length t) (length s) && text_eq (drop (length s - length t) s) t

abbrev pub is_empty : Text → Bool
is_empty [] = true
is_empty (c ∷ s) = false

abbrev pub contains_code : ℕ → Text → Bool
contains_code d [] = false
contains_code d (c ∷ s) = c == d || contains_code d s

-- A letter A to Z as a small one, as the flag i of a pattern takes it.
abbrev pub small : ℕ → ℕ
small c = if leb 65 c && leb c 90 then c + 32 else c

-- The rest after a prefix, given in small letters.
abbrev pub strip_prefix : Text → Text → Option Text
strip_prefix [] s = some s
strip_prefix (d ∷ t) [] = none
strip_prefix (d ∷ t) (c ∷ s) = if small c == d then strip_prefix t s else none

-- `replace(/^https?:\/\//i, '')`, and the same for ws.
unfoldable pub strip_scheme : Text → Text → Text
strip_scheme scheme s = elim (strip_prefix (scheme ++ 115 ∷ 58 ∷ 47 ∷ 47 ∷ []) s) [
  | some r ↦ r
  | none ↦ elim (strip_prefix (scheme ++ 58 ∷ 47 ∷ 47 ∷ []) s) [ some r ↦ r | none ↦ s ]
]

-- The characters that a dot does not match.
abbrev pub is_line_end : ℕ → Bool
is_line_end c = c == 10 || (c == 13 || (c == 0x2028 || c == 0x2029))

abbrev pub is_one_line : Text → Bool
is_one_line [] = true
is_one_line (c ∷ s) = not (is_line_end c) && is_one_line s

-- `replace(/\/.*$/, '')`.
unfoldable pub cut_path : Text → Text
cut_path [] = []
cut_path (c ∷ s) = let rest = cut_path s in if c == 47 && is_one_line s then [] else c ∷ rest

-- The first two parts of `split(':')`.
abbrev pub before_colon : Text → Text
before_colon [] = []
before_colon (c ∷ s) = if c == 58 then [] else c ∷ before_colon s

abbrev pub after_colon : Text → Text
after_colon [] = []
after_colon (c ∷ s) = if c == 58 then s else after_colon s

abbrev pub is_digit : ℕ → Bool
is_digit c = leb 48 c && leb c 57

-- The number of the digits at the beginning, after those that gave `value`.
abbrev pub decimal_value : ℕ → Text → ℕ
decimal_value value [] = value
decimal_value value (c ∷ s) = if is_digit c then decimal_value (value * 10 + (c - 48)) s else value

abbrev pub decimal_digits : Text → Option ℕ
decimal_digits [] = none
decimal_digits (c ∷ s) = if is_digit c then some (decimal_value 0 (c ∷ s)) else none

abbrev pub negative : Option ℕ → Option ℤ
negative none = none
negative (some zero) = some (pos 0)
negative (some (suc n)) = some (negsuc n)

abbrev pub positive : Option ℕ → Option ℤ
positive none = none
positive (some n) = some (pos n)

abbrev pub signed_digits : Text → Option ℤ
signed_digits [] = none
signed_digits (c ∷ s) =
    if c == 45
    then negative (decimal_digits s)
    else positive (decimal_digits (if c == 43 then s else c ∷ s))

-- `parseInt(s, 10)`; `none` is NaN.
unfoldable pub parse_int_10 : Text → Option ℤ
unfolding trim_start
parse_int_10 s = signed_digits (trim_start s)

-- The decimal text of a number, on fuel: a number has at most as many digits as it counts, and one.
abbrev pub digits : ℕ → ℕ → Text → Text
digits zero n acc = acc
digits (suc fuel) n acc = elim (ltb n 10) [
  | true ↦ (48 + n) ∷ acc
  | false ↦ digits fuel (n / 10) ((48 + n % 10) ∷ acc)
]

unfoldable pub text_of_port : ℤ → Text
text_of_port (pos n) = digits (suc n) n []
text_of_port (negsuc n) = 45 ∷ digits (suc (suc n)) (suc n) []

-- `\d{1,3}` at the beginning, as many digits as there are, with the rest.
unfoldable pub take_octet : Text → Option (ℕ × Text)
take_octet [] = none
take_octet (a ∷ []) = if is_digit a then some (a - 48, []) else none
take_octet (a ∷ b ∷ []) =
    if is_digit a
    then (if is_digit b then some ((a - 48) * 10 + (b - 48), []) else some (a - 48, b ∷ []))
    else none
take_octet (a ∷ b ∷ c ∷ s) =
    if is_digit a
    then (if is_digit b
        then (if is_digit c
            then some (((a - 48) * 10 + (b - 48)) * 10 + (c - 48), s)
            else some ((a - 48) * 10 + (b - 48), c ∷ s))
        else some (a - 48, b ∷ c ∷ s))
    else none

unfoldable pub take_dot : Text → Option Text
take_dot [] = none
take_dot (c ∷ s) = if c == 46 then some s else none

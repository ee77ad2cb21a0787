-- ===== src/Keyboard/Layout.antt =====
-- HidKeyMapper.ts: `charToHid`, and what a US keyboard types.
use lookauniversalremote.Prelude.{
  ℕ, ◌+◌, ◌-◌, ◌==◌, ltb, if◌then◌else◌, Bool, true, false, ◌&&◌, ◌||◌, List, [], ◌∷◌, Option, none,
  some, get_or,
}
use lookauniversalremote.Protocol.Types.{Text}
use lookauniversalremote.Keyboard.{HidKey, usage}

-- A key with the shift flag.
pub record HidMapping : Type 0 where
  pub hid_code : ℕ
  pub shift : Bool

abbrev pub mapping : ℕ → Bool → HidMapping
mapping hid_code shift = record { hid_code = hid_code; shift = shift }

-- The comparisons `a <= b` of strings go by code units.
unfoldable pub text_leb : Text → Text → Bool
text_leb [] b = true
text_leb (x ∷ a) [] = false
text_leb (x ∷ a) (y ∷ b) = if x == y then text_leb a b else ltb x y

unfoldable pub is_char : Text → ℕ → Bool
is_char (x ∷ []) c = x == c
is_char _ c = false

abbrev pub symbol_map : List (ℕ × HidMapping)
symbol_map =
    (45, mapping (usage HidKey.minus) false)
    ∷ (95, mapping (usage HidKey.minus) true)
    ∷ (61, mapping (usage HidKey.equal) false)
    ∷ (43, mapping (usage HidKey.equal) true)
    ∷ (91, mapping (usage HidKey.bracket_left) false)
    ∷ (123, mapping (usage HidKey.bracket_left) true)
    ∷ (93, mapping (usage HidKey.bracket_right) false)
    ∷ (125, mapping (usage HidKey.bracket_right) true)
    ∷ (92, mapping (usage HidKey.backslash) false)
    ∷ (124, mapping (usage HidKey.backslash) true)
    ∷ (59, mapping (usage HidKey.semicolon) false)
    ∷ (58, mapping (usage HidKey.semicolon) true)
    ∷ (39, mapping (usage HidKey.quote) false)
    ∷ (34, mapping (usage HidKey.quote) true)
    ∷ (96, mapping (usage HidKey.grave) false)
    ∷ (126, mapping (usage HidKey.grave) true)
    ∷ (44, mapping (usage HidKey.comma) false)
    ∷ (60, mapping (usage HidKey.comma) true)
    ∷ (46, mapping (usage HidKey.period) false)
    ∷ (62, mapping (usage HidKey.period) true)
    ∷ (47, mapping (usage HidKey.slash) false)
    ∷ (63, mapping (usage HidKey.slash) true)
    ∷ (33, mapping (usage HidKey.digit_1) true)
    ∷ (64, mapping (usage HidKey.digit_2) true)
    ∷ (35, mapping (usage HidKey.digit_3) true)
    ∷ (36, mapping (usage HidKey.digit_4) true)
    ∷ (37, mapping (usage HidKey.digit_5) true)
    ∷ (94, mapping (usage HidKey.digit_6) true)
    ∷ (38, mapping (usage HidKey.digit_7) true)
    ∷ (42, mapping (usage HidKey.digit_8) true)
    ∷ (40, mapping (usage HidKey.digit_9) true)
    ∷ (41, mapping (usage HidKey.digit_0) true)
    ∷ []

-- `symbolMap[char] || null`, the names that every object inherits aside.
unfoldable pub symbol : Text → List (ℕ × HidMapping) → Option HidMapping
unfolding is_char
symbol char [] = none
symbol char ((c, m) ∷ rest) = if is_char char c then some m else symbol char rest

-- `char.charCodeAt(0)` of a text that is not empty.
unfoldable pub char_code : Text → ℕ
char_code [] = 0
char_code (x ∷ a) = x

-- `char >= first && char <= last`.
unfoldable pub in_range : Text → ℕ → ℕ → Bool
unfolding text_leb
in_range char first last = text_leb (first ∷ []) char && text_leb char (last ∷ [])

unfoldable pub char_to_hid : Text → Option HidMapping
unfolding in_range char_code is_char symbol
char_to_hid [] = none
char_to_hid (x ∷ a) =
    let char = x ∷ a in
    let code = char_code char in
    if in_range char 65 90
    then some (mapping (usage HidKey.key_a + (code - 65)) true)
    else if in_range char 97 122
    then some (mapping (usage HidKey.key_a + (code - 97)) false)
    else if in_range char 49 57
    then some (mapping (usage HidKey.digit_1 + (code - 49)) false)
    else if is_char char 48
    then some (mapping (usage HidKey.digit_0) false)
    else if is_char char 32
    then some (mapping (usage HidKey.space) false)
    else if is_char char 10 || is_char char 13
    then some (mapping (usage HidKey.enter) false)
    else if is_char char 9
    then some (mapping (usage HidKey.tab) false)
    else symbol char symbol_map

-- What a US keyboard types for the usages 30 to 56, without shift and with it (0: nothing).
abbrev pub plain_characters : List ℕ
plain_characters =
    49 ∷ 50 ∷ 51 ∷ 52 ∷ 53 ∷ 54 ∷ 55 ∷ 56 ∷ 57 ∷ 48 ∷ 10 ∷ 0 ∷ 0 ∷ 9 ∷ 32 ∷ 45 ∷ 61 ∷ 91 ∷ 93 ∷ 92
    ∷ 0 ∷ 59 ∷ 39 ∷ 96 ∷ 44 ∷ 46 ∷ 47 ∷ []

abbrev pub shifted_characters : List ℕ
shifted_characters =
    33 ∷ 64 ∷ 35 ∷ 36 ∷ 37 ∷ 94 ∷ 38 ∷ 42 ∷ 40 ∷ 41 ∷ 0 ∷ 0 ∷ 0 ∷ 0 ∷ 0 ∷ 95 ∷ 43 ∷ 123 ∷ 125 ∷ 124
    ∷ 0 ∷ 58 ∷ 34 ∷ 126 ∷ 60 ∷ 62 ∷ 63 ∷ []

abbrev pub typed : HidMapping → ℕ
typed m =
    if ltb m.hid_code 30
    then m.hid_code - 4 + (if m.shift then 65 else 97)
    else get_or (if m.shift then shifted_characters else plain_characters) (m.hid_code - 30) 0

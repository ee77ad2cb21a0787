-- ===== src/Keyboard/Typing.antt =====
-- HidKeyMapper.ts: the mapping of a character is the key that types it.
use lookauniversalremote.Prelude.{
  ℕ, ◌+◌, ◌-◌, ◌≤◌, ◌≡◌, arith, ◌==◌, leb, if◌then◌else◌, if_either, Bool, true, false, ◌&&◌, ◌||◌,
  [], ◌∷◌, Option, none, some,
}
use lookauniversalremote.Keyboard.Layout.{
  HidMapping, mapping, text_leb, is_char, symbol_map, symbol, in_range, char_to_hid, typed,
}

-- The characters that have a mapping: the printable ones of ASCII, tab, line feed, carriage return.
abbrev pub is_typable : ℕ → Bool
is_typable c = (leb 32 c && leb c 126) || (c == 9 || (c == 10 || c == 13))

-- A carriage return is typed as a line feed.
abbrev pub normal : ℕ → ℕ
normal c = if c == 13 then 10 else c

-- What a mapping of `c`, or none, must be.
abbrev pub IsTyping : ℕ → Option HidMapping → Type 0
IsTyping c none = is_typable c ≡ false
IsTyping c (some m) = (typed m ≡ normal c) × (is_typable c ≡ true)

ranged : (c first last : ℕ) → in_range (c ∷ []) first last ≡ leb first c && leb c last
unfolding in_range text_leb
ranged c first last = ground arith

letters :
    (c : ℕ) (shift : Bool)
    → (if shift then 65 else 97) ≤ c
    → c ≤ (if shift then 90 else 122)
    → IsTyping c (some (mapping (4 + (c - (if shift then 65 else 97))) shift))
letters c true lo hi = ground arith
letters c false lo hi = ground arith

digits : (c : ℕ) → 49 ≤ c → c ≤ 57 → IsTyping c (some (mapping (30 + (c - 49)) false))
digits c lo hi = ground arith

symbols :
    (c : ℕ)
    → (leb 65 c && leb c 90) ≡ false
    → (leb 97 c && leb c 122) ≡ false
    → (leb 49 c && leb c 57) ≡ false
    → (c == 48) ≡ false
    → (c == 32) ≡ false
    → (c == 10 || c == 13) ≡ false
    → (c == 9) ≡ false
    → IsTyping c (symbol (c ∷ []) symbol_map)
unfolding symbol is_char
symbols c upper lower digit nought space enter tab = ground arith

-- Each printable ASCII character, tab, line feed and carriage return is mapped to the key and the
-- shift flag that type it on a US keyboard, the carriage return being typed as a line feed; every
-- other character has no mapping.
pub char_to_hid-IsTyping : (c : ℕ) → IsTyping c (char_to_hid (c ∷ []))
unfolding char_to_hid is_char
char_to_hid-IsTyping c =
    let T = IsTyping c in
    rw (ranged c 65 90, ranged c 97 122, ranged c 49 57)
      (if_either T (leb 65 c && leb c 90) (λ e. letters c true (ground arith) (ground arith))
        λ upper.
          if_either T (leb 97 c && leb c 122) (λ e. letters c false (ground arith) (ground arith))
            λ lower.
              if_either T (leb 49 c && leb c 57) (λ e. digits c (ground arith) (ground arith))
                λ digit.
                  if_either T (c == 48) (λ e. ground arith)
                    λ nought.
                      if_either T (c == 32) (λ e. ground arith)
                        λ space.
                          if_either T (c == 10 || c == 13) (λ e. ground arith)
                            λ enter.
                              if_either T (c == 9) (λ e. ground arith)
                                λ tab. symbols c upper lower digit nought space enter tab)

-- ===== src/Tests/Keyboard.antt =====
-- The keyboard's tables, instantiated.
use lookauniversalremote.Prelude.{[], ◌∷◌}
use lookauniversalremote.Keyboard.Layout.{char_to_hid}
use lookauniversalremote.Keyboard.Typing.{IsTyping, char_to_hid-IsTyping}

char_to_hid-IsTyping_example : IsTyping 64 (char_to_hid (64 ∷ []))
char_to_hid-IsTyping_example = char_to_hid-IsTyping 64

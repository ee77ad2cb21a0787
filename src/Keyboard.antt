-- ===== src/Keyboard.antt =====
-- apps/web-client/src/features/keyboard/HidKeyMapper.ts: the usage table of the USB keyboard page,
-- and the DOM's key codes.
pub mod Keys
pub mod Layout
pub mod Typing
pub mod Modifiers
use Prim.Native.String.{String}
use text.Mathlib.Text.{◌==◌ as str_eq}
use lookauniversalremote.Prelude.{
  ℕ, ◌==◌, if◌then◌else◌, Bool, true, false, List, [], ◌∷◌, length, Option, none, some,
}

pub data HidKey : Type 0 where
  key_a key_b key_c key_d key_e key_f key_g key_h key_i key_j key_k key_l key_m key_n : HidKey
  key_o key_p key_q key_r key_s key_t key_u key_v key_w key_x key_y key_z digit_1 : HidKey
  digit_2 digit_3 digit_4 digit_5 digit_6 digit_7 digit_8 digit_9 digit_0 enter escape : HidKey
  backspace tab space minus equal bracket_left bracket_right backslash semicolon quote : HidKey
  grave comma period slash caps_lock f1 f2 f3 f4 f5 f6 f7 f8 f9 f10 f11 f12 : HidKey
  print_screen scroll_lock pause insert home page_up delete end page_down arrow_right : HidKey
  arrow_left arrow_down arrow_up control_left shift_left alt_left meta_left : HidKey
  control_right shift_right alt_right meta_right : HidKey

abbrev pub usage : HidKey → ℕ
usage key_a = 0x04
usage key_b = 0x05
usage key_c = 0x06
usage key_d = 0x07
usage key_e = 0x08
usage key_f = 0x09
usage key_g = 0x0a
usage key_h = 0x0b
usage key_i = 0x0c
usage key_j = 0x0d
usage key_k = 0x0e
usage key_l = 0x0f
usage key_m = 0x10
usage key_n = 0x11
usage key_o = 0x12
usage key_p = 0x13
usage key_q = 0x14
usage key_r = 0x15
usage key_s = 0x16
usage key_t = 0x17
usage key_u = 0x18
usage key_v = 0x19
usage key_w = 0x1a
usage key_x = 0x1b
usage key_y = 0x1c
usage key_z = 0x1d
usage digit_1 = 0x1e
usage digit_2 = 0x1f
usage digit_3 = 0x20
usage digit_4 = 0x21
usage digit_5 = 0x22
usage digit_6 = 0x23
usage digit_7 = 0x24
usage digit_8 = 0x25
usage digit_9 = 0x26
usage digit_0 = 0x27
usage enter = 0x28
usage escape = 0x29
usage backspace = 0x2a
usage tab = 0x2b
usage space = 0x2c
usage minus = 0x2d
usage equal = 0x2e
usage bracket_left = 0x2f
usage bracket_right = 0x30
usage backslash = 0x31
usage semicolon = 0x33
usage quote = 0x34
usage grave = 0x35
usage comma = 0x36
usage period = 0x37
usage slash = 0x38
usage caps_lock = 0x39
usage f1 = 0x3a
usage f2 = 0x3b
usage f3 = 0x3c
usage f4 = 0x3d
usage f5 = 0x3e
usage f6 = 0x3f
usage f7 = 0x40
usage f8 = 0x41
usage f9 = 0x42
usage f10 = 0x43
usage f11 = 0x44
usage f12 = 0x45
usage print_screen = 0x46
usage scroll_lock = 0x47
usage pause = 0x48
usage insert = 0x49
usage home = 0x4a
usage page_up = 0x4b
usage delete = 0x4c
usage end = 0x4d
usage page_down = 0x4e
usage arrow_right = 0x4f
usage arrow_left = 0x50
usage arrow_down = 0x51
usage arrow_up = 0x52
usage control_left = 0xe0
usage shift_left = 0xe1
usage alt_left = 0xe2
usage meta_left = 0xe3
usage control_right = 0xe4
usage shift_right = 0xe5
usage alt_right = 0xe6
usage meta_right = 0xe7

abbrev pub dom_code_to_hid : List (String × HidKey)
dom_code_to_hid =
    ("KeyA", key_a)
    ∷ ("KeyB", key_b)
    ∷ ("KeyC", key_c)
    ∷ ("KeyD", key_d)
    ∷ ("KeyE", key_e)
    ∷ ("KeyF", key_f)
    ∷ ("KeyG", key_g)
    ∷ ("KeyH", key_h)
    ∷ ("KeyI", key_i)
    ∷ ("KeyJ", key_j)
    ∷ ("KeyK", key_k)
    ∷ ("KeyL", key_l)
    ∷ ("KeyM", key_m)
    ∷ ("KeyN", key_n)
    ∷ ("KeyO", key_o)
    ∷ ("KeyP", key_p)
    ∷ ("KeyQ", key_q)
    ∷ ("KeyR", key_r)
    ∷ ("KeyS", key_s)
    ∷ ("KeyT", key_t)
    ∷ ("KeyU", key_u)
    ∷ ("KeyV", key_v)
    ∷ ("KeyW", key_w)
    ∷ ("KeyX", key_x)
    ∷ ("KeyY", key_y)
    ∷ ("KeyZ", key_z)
    ∷ ("Digit1", digit_1)
    ∷ ("Digit2", digit_2)
    ∷ ("Digit3", digit_3)
    ∷ ("Digit4", digit_4)
    ∷ ("Digit5", digit_5)
    ∷ ("Digit6", digit_6)
    ∷ ("Digit7", digit_7)
    ∷ ("Digit8", digit_8)
    ∷ ("Digit9", digit_9)
    ∷ ("Digit0", digit_0)
    ∷ ("Enter", enter)
    ∷ ("Escape", escape)
    ∷ ("Backspace", backspace)
    ∷ ("Tab", tab)
    ∷ ("Space", space)
    ∷ ("Minus", minus)
    ∷ ("Equal", equal)
    ∷ ("BracketLeft", bracket_left)
    ∷ ("BracketRight", bracket_right)
    ∷ ("Backslash", backslash)
    ∷ ("Semicolon", semicolon)
    ∷ ("Quote", quote)
    ∷ ("Backquote", grave)
    ∷ ("Comma", comma)
    ∷ ("Period", period)
    ∷ ("Slash", slash)
    ∷ ("CapsLock", caps_lock)
    ∷ ("F1", f1)
    ∷ ("F2", f2)
    ∷ ("F3", f3)
    ∷ ("F4", f4)
    ∷ ("F5", f5)
    ∷ ("F6", f6)
    ∷ ("F7", f7)
    ∷ ("F8", f8)
    ∷ ("F9", f9)
    ∷ ("F10", f10)
    ∷ ("F11", f11)
    ∷ ("F12", f12)
    ∷ ("PrintScreen", print_screen)
    ∷ ("ScrollLock", scroll_lock)
    ∷ ("Pause", pause)
    ∷ ("Insert", insert)
    ∷ ("Home", home)
    ∷ ("PageUp", page_up)
    ∷ ("Delete", delete)
    ∷ ("End", end)
    ∷ ("PageDown", page_down)
    ∷ ("ArrowRight", arrow_right)
    ∷ ("ArrowLeft", arrow_left)
    ∷ ("ArrowDown", arrow_down)
    ∷ ("ArrowUp", arrow_up)
    ∷ ("ControlLeft", control_left)
    ∷ ("ShiftLeft", shift_left)
    ∷ ("AltLeft", alt_left)
    ∷ ("MetaLeft", meta_left)
    ∷ ("ControlRight", control_right)
    ∷ ("ShiftRight", shift_right)
    ∷ ("AltRight", alt_right)
    ∷ ("MetaRight", meta_right)
    ∷ []

-- `DOM_CODE_TO_HID[code]`; the names that every object inherits are not modelled.
unfoldable pub hid_of_code : String → List (String × HidKey) → Option HidKey
hid_of_code code [] = none
hid_of_code code ((c, k) ∷ rest) = if str_eq c code then some k else hid_of_code code rest

-- ===== src/Keycodes.antt =====
-- src/keycodes.cpp: the names of keys and buttons. A KEY_ constant is written as its number in
-- linux/input-event-codes.h.
pub mod Names
use flydigi_vader.Base.{ℕ, String, List, [], ◌∷◌, Option, none, some, ◌is◌, if◌then◌else◌}
use flydigi_vader.Kernel.Codes

-- `KEY_TABLE`
abbrev pub key_table : List (String × ℕ)
key_table =
    ("KEY_ESC", 1)
    ∷ ("KEY_1", 2)
    ∷ ("KEY_2", 3)
    ∷ ("KEY_3", 4)
    ∷ ("KEY_4", 5)
    ∷ ("KEY_5", 6)
    ∷ ("KEY_6", 7)
    ∷ ("KEY_7", 8)
    ∷ ("KEY_8", 9)
    ∷ ("KEY_9", 10)
    ∷ ("KEY_0", 11)
    ∷ ("KEY_BACKSPACE", 14)
    ∷ ("KEY_TAB", 15)
    ∷ ("KEY_Q", 16)
    ∷ ("KEY_W", 17)
    ∷ ("KEY_E", 18)
    ∷ ("KEY_R", 19)
    ∷ ("KEY_T", 20)
    ∷ ("KEY_Y", 21)
    ∷ ("KEY_U", 22)
    ∷ ("KEY_I", 23)
    ∷ ("KEY_O", 24)
    ∷ ("KEY_P", 25)
    ∷ ("KEY_ENTER", 28)
    ∷ ("KEY_LEFTCTRL", 29)
    ∷ ("KEY_A", 30)
    ∷ ("KEY_S", 31)
    ∷ ("KEY_D", 32)
    ∷ ("KEY_F", 33)
    ∷ ("KEY_G", 34)
    ∷ ("KEY_H", 35)
    ∷ ("KEY_J", 36)
    ∷ ("KEY_K", 37)
    ∷ ("KEY_L", 38)
    ∷ ("KEY_LEFTSHIFT", 42)
    ∷ ("KEY_Z", 44)
    ∷ ("KEY_X", 45)
    ∷ ("KEY_C", 46)
    ∷ ("KEY_V", 47)
    ∷ ("KEY_B", 48)
    ∷ ("KEY_N", 49)
    ∷ ("KEY_M", 50)
    ∷ ("KEY_RIGHTSHIFT", 54)
    ∷ ("KEY_LEFTALT", 56)
    ∷ ("KEY_SPACE", 57)
    ∷ ("KEY_CAPSLOCK", 58)
    ∷ ("KEY_F1", 59)
    ∷ ("KEY_F2", 60)
    ∷ ("KEY_F3", 61)
    ∷ ("KEY_F4", 62)
    ∷ ("KEY_F5", 63)
    ∷ ("KEY_F6", 64)
    ∷ ("KEY_F7", 65)
    ∷ ("KEY_F8", 66)
    ∷ ("KEY_F9", 67)
    ∷ ("KEY_F10", 68)
    ∷ ("KEY_F11", 87)
    ∷ ("KEY_F12", 88)
    ∷ ("KEY_F13", 183)
    ∷ ("KEY_F14", 184)
    ∷ ("KEY_F15", 185)
    ∷ ("KEY_F16", 186)
    ∷ ("KEY_F17", 187)
    ∷ ("KEY_F18", 188)
    ∷ ("KEY_F19", 189)
    ∷ ("KEY_F20", 190)
    ∷ ("KEY_F21", 191)
    ∷ ("KEY_F22", 192)
    ∷ ("KEY_F23", 193)
    ∷ ("KEY_F24", 194)
    ∷ ("KEY_RIGHTCTRL", 97)
    ∷ ("KEY_RIGHTALT", 100)
    ∷ ("KEY_LEFTMETA", 125)
    ∷ ("KEY_RIGHTMETA", 126)
    ∷ ("KEY_HOME", 102)
    ∷ ("KEY_UP", 103)
    ∷ ("KEY_PAGEUP", 104)
    ∷ ("KEY_LEFT", 105)
    ∷ ("KEY_RIGHT", 106)
    ∷ ("KEY_END", 107)
    ∷ ("KEY_DOWN", 108)
    ∷ ("KEY_PAGEDOWN", 109)
    ∷ ("KEY_INSERT", 110)
    ∷ ("KEY_DELETE", 111)
    ∷ ("BTN_SOUTH", Codes.btn_south)
    ∷ ("BTN_EAST", Codes.btn_east)
    ∷ ("BTN_NORTH", Codes.btn_north)
    ∷ ("BTN_WEST", Codes.btn_west)
    ∷ ("BTN_TL", Codes.btn_tl)
    ∷ ("BTN_TR", Codes.btn_tr)
    ∷ ("BTN_SELECT", Codes.btn_select)
    ∷ ("BTN_START", Codes.btn_start)
    ∷ ("BTN_MODE", Codes.btn_mode)
    ∷ ("BTN_THUMBL", Codes.btn_thumbl)
    ∷ ("BTN_THUMBR", Codes.btn_thumbr)
    ∷ ("BTN_LEFT", Codes.btn_left)
    ∷ ("BTN_RIGHT", Codes.btn_right)
    ∷ ("BTN_MIDDLE", Codes.btn_middle)
    ∷ ("BTN_SIDE", Codes.btn_side)
    ∷ ("BTN_EXTRA", Codes.btn_extra)
    ∷ ("BTN_FORWARD", Codes.btn_forward)
    ∷ ("BTN_BACK", Codes.btn_back)
    ∷ []

-- The loop of `keycode_from_name`.
unfoldable pub find_entry : String → List (String × ℕ) → Option ℕ
find_entry name [] = none
find_entry name ((entry, code) ∷ rest) =
    let later = find_entry name rest in if entry is name then some code else later

unfoldable pub keycode_from_name : String → Option ℕ
unfolding find_entry
keycode_from_name name = find_entry name key_table

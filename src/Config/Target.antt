-- ===== src/Config/Target.antt =====
-- src/config.cpp: `parse_remap_target`.
pub mod Sound
use flydigi_vader.Base.{ℕ, Bool, String, ◌is◌, Option, none, some, if◌then◌else◌, not, ◌||◌, ◌==◌}
use flydigi_vader.Kernel.Codes
use flydigi_vader.Types.Masks.{button_to_masks}
use flydigi_vader.Keycodes.{keycode_from_name}
use flydigi_vader.Config.{RemapTarget, RemapType, disabled, key, mouse_button, gamepad_button}

-- `RemapTarget{type, code}`: no gamepad button.
abbrev pub plain : RemapType → ℕ → RemapTarget
plain type code = record { type = type; code = code; btn_mask = 0; ext_mask = 0 }

-- The tail of `parse_remap_target`: a key, or nothing.
unfoldable pub key_target : Option ℕ → Option RemapTarget
key_target none = none
key_target (some code) = some (plain key code)

-- A gamepad button where the masks name one, else the tail.
unfoldable pub button_target : ℕ × ℕ → Option RemapTarget → Option RemapTarget
button_target (btn, ext) other =
    if not (btn == 0) || not (ext == 0)
    then some (record { type = gamepad_button; code = 0; btn_mask = btn; ext_mask = ext })
    else other

unfoldable pub parse_remap_target : String → Option RemapTarget
parse_remap_target value =
    if value is "disabled"
    then some (plain disabled 0)
    else if value is "mouse_left"
    then some (plain mouse_button Codes.btn_left)
    else if value is "mouse_right"
    then some (plain mouse_button Codes.btn_right)
    else if value is "mouse_middle"
    then some (plain mouse_button Codes.btn_middle)
    else if value is "mouse_side"
    then some (plain mouse_button Codes.btn_side)
    else if value is "mouse_extra"
    then some (plain mouse_button Codes.btn_extra)
    else if value is "mouse_forward"
    then some (plain mouse_button Codes.btn_forward)
    else if value is "mouse_back"
    then some (plain mouse_button Codes.btn_back)
    else button_target (button_to_masks value) (key_target (keycode_from_name value))

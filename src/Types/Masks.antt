-- ===== src/Types/Masks.antt =====
-- include/vader5/types.hpp: the enumerators of `Button`, `ExtButton`, `ExtButton2` and `Dpad`, and
-- `button_to_masks`.
pub mod Fits
use flydigi_vader.Base.{ℕ, ◌^◌, String, ◌is◌, if◌then◌else◌}

abbrev pub pad_a : ℕ
pad_a = 2 ^ 0

abbrev pub pad_b : ℕ
pad_b = 2 ^ 1

abbrev pub pad_x : ℕ
pad_x = 2 ^ 2

abbrev pub pad_y : ℕ
pad_y = 2 ^ 3

abbrev pub pad_lb : ℕ
pad_lb = 2 ^ 4

abbrev pub pad_rb : ℕ
pad_rb = 2 ^ 5

abbrev pub pad_select : ℕ
pad_select = 2 ^ 6

abbrev pub pad_start : ℕ
pad_start = 2 ^ 7

abbrev pub pad_mode : ℕ
pad_mode = 2 ^ 8

abbrev pub pad_l3 : ℕ
pad_l3 = 2 ^ 9

abbrev pub pad_r3 : ℕ
pad_r3 = 2 ^ 10

abbrev pub ext_c : ℕ
ext_c = 2 ^ 0

abbrev pub ext_z : ℕ
ext_z = 2 ^ 1

abbrev pub ext_m1 : ℕ
ext_m1 = 2 ^ 2

abbrev pub ext_m2 : ℕ
ext_m2 = 2 ^ 3

abbrev pub ext_m3 : ℕ
ext_m3 = 2 ^ 4

abbrev pub ext_m4 : ℕ
ext_m4 = 2 ^ 5

abbrev pub ext_lm : ℕ
ext_lm = 2 ^ 6

abbrev pub ext_rm : ℕ
ext_rm = 2 ^ 7

abbrev pub ext_o : ℕ
ext_o = 2 ^ 0

abbrev pub ext_home : ℕ
ext_home = 2 ^ 3

abbrev pub dpad_none : ℕ
dpad_none = 0

abbrev pub dpad_up : ℕ
dpad_up = 1

abbrev pub dpad_up_right : ℕ
dpad_up_right = 2

abbrev pub dpad_right : ℕ
dpad_right = 3

abbrev pub dpad_down_right : ℕ
dpad_down_right = 4

abbrev pub dpad_down : ℕ
dpad_down = 5

abbrev pub dpad_down_left : ℕ
dpad_down_left = 6

abbrev pub dpad_left : ℕ
dpad_left = 7

abbrev pub dpad_up_left : ℕ
dpad_up_left = 8

-- The pair (button mask, extended mask) of a configuration name.
unfoldable pub button_to_masks : String → ℕ × ℕ
button_to_masks name =
    if name is "A"
    then (pad_a, 0)
    else if name is "B"
    then (pad_b, 0)
    else if name is "X"
    then (pad_x, 0)
    else if name is "Y"
    then (pad_y, 0)
    else if name is "LB"
    then (pad_lb, 0)
    else if name is "RB"
    then (pad_rb, 0)
    else if name is "SELECT"
    then (pad_select, 0)
    else if name is "START"
    then (pad_start, 0)
    else if name is "L3"
    then (pad_l3, 0)
    else if name is "R3"
    then (pad_r3, 0)
    else if name is "C"
    then (0, ext_c)
    else if name is "Z"
    then (0, ext_z)
    else if name is "M1"
    then (0, ext_m1)
    else if name is "M2"
    then (0, ext_m2)
    else if name is "M3"
    then (0, ext_m3)
    else if name is "M4"
    then (0, ext_m4)
    else if name is "LM"
    then (0, ext_lm)
    else if name is "RM"
    then (0, ext_rm)
    else (0, 0)

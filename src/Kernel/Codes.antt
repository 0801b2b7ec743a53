-- ===== src/Kernel/Codes.antt =====
-- The constants of linux/input-event-codes.h and linux/uinput.h that the source names: numbers of
-- the kernel's stable user-space interface.
use flydigi_vader.Base.{ℕ}

abbrev pub ev_syn : ℕ
ev_syn = 0

abbrev pub ev_key : ℕ
ev_key = 1

abbrev pub ev_rel : ℕ
ev_rel = 2

abbrev pub ev_abs : ℕ
ev_abs = 3

abbrev pub ev_ff : ℕ
ev_ff = 0x15

abbrev pub ev_uinput : ℕ
ev_uinput = 0x101

abbrev pub ui_ff_upload : ℕ
ui_ff_upload = 1

abbrev pub ui_ff_erase : ℕ
ui_ff_erase = 2

abbrev pub ff_rumble : ℕ
ff_rumble = 0x50

abbrev pub syn_report : ℕ
syn_report = 0

abbrev pub abs_x : ℕ
abs_x = 0

abbrev pub abs_y : ℕ
abs_y = 1

abbrev pub abs_z : ℕ
abs_z = 2

abbrev pub abs_rx : ℕ
abs_rx = 3

abbrev pub abs_ry : ℕ
abs_ry = 4

abbrev pub abs_rz : ℕ
abs_rz = 5

abbrev pub rel_x : ℕ
rel_x = 0

abbrev pub rel_y : ℕ
rel_y = 1

abbrev pub rel_hwheel : ℕ
rel_hwheel = 6

abbrev pub rel_wheel : ℕ
rel_wheel = 8

abbrev pub btn_left : ℕ
btn_left = 0x110

abbrev pub btn_right : ℕ
btn_right = 0x111

abbrev pub btn_middle : ℕ
btn_middle = 0x112

abbrev pub btn_side : ℕ
btn_side = 0x113

abbrev pub btn_extra : ℕ
btn_extra = 0x114

abbrev pub btn_forward : ℕ
btn_forward = 0x115

abbrev pub btn_back : ℕ
btn_back = 0x116

abbrev pub btn_south : ℕ
btn_south = 0x130

abbrev pub btn_east : ℕ
btn_east = 0x131

abbrev pub btn_north : ℕ
btn_north = 0x133

abbrev pub btn_west : ℕ
btn_west = 0x134

abbrev pub btn_tl : ℕ
btn_tl = 0x136

abbrev pub btn_tr : ℕ
btn_tr = 0x137

abbrev pub btn_select : ℕ
btn_select = 0x13a

abbrev pub btn_start : ℕ
btn_start = 0x13b

abbrev pub btn_mode : ℕ
btn_mode = 0x13c

abbrev pub btn_thumbl : ℕ
btn_thumbl = 0x13d

abbrev pub btn_thumbr : ℕ
btn_thumbr = 0x13e

abbrev pub btn_dpad_up : ℕ
btn_dpad_up = 0x220

abbrev pub btn_dpad_down : ℕ
btn_dpad_down = 0x221

abbrev pub btn_dpad_left : ℕ
btn_dpad_left = 0x222

abbrev pub btn_dpad_right : ℕ
btn_dpad_right = 0x223

abbrev pub btn_trigger_happy1 : ℕ
btn_trigger_happy1 = 0x2c0

abbrev pub btn_trigger_happy2 : ℕ
btn_trigger_happy2 = 0x2c1

abbrev pub btn_trigger_happy3 : ℕ
btn_trigger_happy3 = 0x2c2

abbrev pub btn_trigger_happy4 : ℕ
btn_trigger_happy4 = 0x2c3

abbrev pub btn_trigger_happy5 : ℕ
btn_trigger_happy5 = 0x2c4

abbrev pub btn_trigger_happy6 : ℕ
btn_trigger_happy6 = 0x2c5

abbrev pub btn_trigger_happy7 : ℕ
btn_trigger_happy7 = 0x2c6

abbrev pub btn_trigger_happy8 : ℕ
btn_trigger_happy8 = 0x2c7

abbrev pub btn_trigger_happy9 : ℕ
btn_trigger_happy9 = 0x2c8

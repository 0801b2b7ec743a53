-- ===== src/Protocol.antt =====
-- include/vader5/protocol.hpp: decoding of the extended report of interface 1.
-- A packet is the list of its bytes. A read past its end is undefined behaviour: it yields the
-- parameter `stray`, and Protocol/Bounds shows that no decoder depends on it.
pub mod Bounds
pub mod Report
pub mod Flags
pub mod Encode
use flydigi_vader.Base.{
  ℕ, ◌+◌, ◌*◌, ◌^◌, Bool, ◌||◌, not, Option, none, some, List, [], ◌∷◌, ltb, leb, ◌==◌,
  if◌then◌else◌, bit_and, bit_or, has, length, get_or,
}
use flydigi_vader.Base.Int.{ℤ, pos, negsuc, neg, clamp, signed16, to_int16}
use flydigi_vader.Types.{GamepadState, zero_state}
use flydigi_vader.Types.Masks.{
  pad_a, pad_b, pad_x, pad_y, pad_lb, pad_rb, pad_select, pad_start, pad_l3, pad_r3, dpad_none,
  dpad_up, dpad_right, dpad_up_right, dpad_down, dpad_down_right, dpad_left, dpad_up_left,
  dpad_down_left,
}

abbrev pub pkt_size : ℕ
pkt_size = 32

abbrev pub magic_5a : ℕ
magic_5a = 0x5a

abbrev pub magic_a5 : ℕ
magic_a5 = 0xa5

abbrev pub magic_ef : ℕ
magic_ef = 0xef

-- `DPAD_MAP`
abbrev pub dpad_map : List ℕ
dpad_map =
    dpad_none ∷ dpad_up ∷ dpad_right ∷ dpad_up_right ∷ dpad_down ∷ dpad_none ∷ dpad_down_right
    ∷ dpad_none ∷ dpad_left ∷ dpad_up_left ∷ dpad_none ∷ dpad_none ∷ dpad_down_left ∷ dpad_none
    ∷ dpad_none ∷ dpad_none ∷ []

abbrev pub off_lx : ℕ
off_lx = 3

abbrev pub off_btns : ℕ
off_btns = 11

abbrev pub off_ext1 : ℕ
off_ext1 = 13

abbrev pub off_ext2 : ℕ
off_ext2 = 14

abbrev pub off_lt : ℕ
off_lt = 15

abbrev pub off_rt : ℕ
off_rt = 16

abbrev pub off_gyro : ℕ
off_gyro = 17

abbrev pub off_accel : ℕ
off_accel = 23

abbrev pub min_size : ℕ
min_size = 17

abbrev pub full_size : ℕ
full_size = 29

-- `parse_buttons`: one flag after the other, as the source accumulates them.
unfoldable pub set_flag : ℕ → ℕ → ℕ → ℕ → ℕ
set_flag byte flag mask btns = if has byte flag then bit_or btns mask else btns

unfoldable pub parse_buttons : ℕ → ℕ → ℕ
parse_buttons b11 b12 =
    let btns = set_flag b11 0x10 pad_a 0 in
    let btns = set_flag b11 0x20 pad_b btns in
    let btns = set_flag b11 0x80 pad_x btns in
    let btns = set_flag b12 0x01 pad_y btns in
    let btns = set_flag b12 0x04 pad_lb btns in
    let btns = set_flag b12 0x08 pad_rb btns in
    let btns = set_flag b11 0x40 pad_select btns in
    let btns = set_flag b12 0x02 pad_start btns in
    let btns = set_flag b12 0x40 pad_l3 btns in set_flag b12 0x80 pad_r3 btns

-- `static_cast<int16_t>(std::clamp(-static_cast<int>(y), -32767, 32767))`
abbrev pub flip_y : ℤ → ℤ
flip_y y = to_int16 (clamp (neg y) (negsuc 32766) (pos 32767))

module _ (stray : ℕ) where
  -- `read_s16(&data[at])`
  unfoldable pub read_s16 : List ℕ → ℕ → ℤ
  read_s16 packet at =
      signed16 (bit_or (get_or packet at stray) (get_or packet (at + 1) stray * 2 ^ 8))

  unfoldable pub parse_dpad : ℕ → ℕ
  parse_dpad b11 = get_or dpad_map (bit_and b11 0x0f) stray

  -- The fields that every report has.
  unfoldable pub parse_base : List ℕ → GamepadState
  parse_base packet =
      let b11 = get_or packet off_btns stray in
      let b12 = get_or packet (off_btns + 1) stray in
      record zero_state {
        left_x = read_s16 packet off_lx;
        left_y = flip_y (read_s16 packet (off_lx + 2));
        right_x = read_s16 packet (off_lx + 4);
        right_y = flip_y (read_s16 packet (off_lx + 6));
        buttons = parse_buttons b11 b12;
        dpad = parse_dpad b11;
        left_trigger = get_or packet off_lt stray;
        right_trigger = get_or packet off_rt stray;
        ext_buttons = get_or packet off_ext1 stray;
        ext_buttons2 = get_or packet off_ext2 stray;
      }

  -- The motion fields of a full report.
  unfoldable pub parse_motion : List ℕ → GamepadState → GamepadState
  parse_motion packet state = record state {
    gyro_x = read_s16 packet off_gyro;
    gyro_y = read_s16 packet (off_gyro + 2);
    gyro_z = read_s16 packet (off_gyro + 4);
    accel_x = read_s16 packet off_accel;
    accel_y = read_s16 packet (off_accel + 2);
    accel_z = read_s16 packet (off_accel + 4);
  }

  -- What `parse` returns behind its guards.
  unfoldable pub decode : List ℕ → GamepadState
  decode packet =
      let state = parse_base packet in
      if leb full_size (length packet) then parse_motion packet state else state

  -- `ext_report::parse`
  unfoldable pub parse : List ℕ → Option GamepadState
  parse packet =
      if ltb (length packet) min_size
      then none
      else if not (get_or packet 0 stray == magic_5a)
          || not (get_or packet 1 stray == magic_a5)
          || not (get_or packet 2 stray == magic_ef)
      then none
      else some (decode packet)

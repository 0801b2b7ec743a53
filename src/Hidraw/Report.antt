-- ===== src/Hidraw/Report.antt =====
-- src/hidraw.cpp: `Hidraw::parse_report`, the decoder of the 24G report of interface 0. `stray` stands
-- for a read past the packet.
pub mod Buttons
pub mod Agree
use flydigi_vader.Base.{
  ℕ, ◌+◌, ◌*◌, ◌/◌, ◌%◌, ◌^◌, ◌&&◌, List, Option, none, some, ◌==◌, if◌then◌else◌, bit_and, bit_or,
  length, get_or,
}
use flydigi_vader.Base.Int.{ℤ, neg, to_int16}
use flydigi_vader.Types.{GamepadState, zero_state}
use flydigi_vader.Types.Masks.{
  pad_a, pad_b, pad_x, pad_y, pad_lb, pad_rb, pad_select, pad_start, pad_mode, pad_l3, pad_r3,
}
use flydigi_vader.Protocol.{read_s16, dpad_map}

abbrev pub report_24g : ℕ
report_24g = 20

abbrev pub subtype_24g : ℕ
subtype_24g = 0x14

-- `((byte >> shift) & 1) * mask`
abbrev pub flag : ℕ → ℕ → ℕ → ℕ
flag byte shift mask = bit_and (byte / 2 ^ shift) 1 * mask

-- `state.buttons` before its cast.
unfoldable pub button_word : ℕ → ℕ → ℕ
button_word misc btns =
    let word = bit_or (flag misc 4 pad_start) (flag misc 5 pad_select) in
    let word = bit_or word (flag misc 6 pad_l3) in
    let word = bit_or word (flag misc 7 pad_r3) in
    let word = bit_or word (flag btns 0 pad_lb) in
    let word = bit_or word (flag btns 1 pad_rb) in
    let word = bit_or word (flag btns 3 pad_mode) in
    let word = bit_or word (flag btns 4 pad_a) in
    let word = bit_or word (flag btns 5 pad_b) in
    let word = bit_or word (flag btns 6 pad_x) in bit_or word (flag btns 7 pad_y)

module _ (stray : ℕ) where
  -- `static_cast<int16_t>(-read_s16(&data[at]))`
  abbrev pub negated : List ℕ → ℕ → ℤ
  negated packet at = to_int16 (neg (read_s16 stray packet at))

  unfoldable pub parse_report_24g : List ℕ → GamepadState
  parse_report_24g packet =
      let misc = get_or packet 2 stray in
      let btns = get_or packet 3 stray in
      record zero_state {
        dpad = get_or dpad_map (bit_and misc 0x0f) stray;
        buttons = button_word misc btns % 2 ^ 16;
        left_trigger = get_or packet 4 stray;
        right_trigger = get_or packet 5 stray;
        left_x = read_s16 stray packet 6;
        left_y = negated packet 8;
        right_x = read_s16 stray packet 10;
        right_y = negated packet 12;
        ext_buttons = get_or packet 14 stray;
        ext_buttons2 = get_or packet 15 stray;
      }

  -- `Hidraw::parse_report`
  unfoldable pub parse_report : List ℕ → Option GamepadState
  parse_report packet =
      if (length packet == report_24g) && (get_or packet 1 stray == subtype_24g)
      then some (parse_report_24g packet)
      else none

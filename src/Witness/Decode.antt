-- ===== src/Witness/Decode.antt =====
-- The decoder's theorems at concrete packets.
use flydigi_vader.Base.{ℕ, ◌≡◌, refl, Bool, true, false, ltb, ◌&&◌, List, [], ◌∷◌, some, arith, All}
use flydigi_vader.Base.Int.{pos, negsuc}
use flydigi_vader.Types.{GamepadState, zero_state}
use flydigi_vader.Protocol.{
  parse, decode, parse_base, parse_motion, read_s16, parse_dpad, parse_buttons, set_flag,
}
use flydigi_vader.Protocol.Bounds.{IsInRange, IsByte, parse_in_bounds, parse-IsInRange}
use flydigi_vader.Protocol.Report.{Report, up_right, IsRepresentable, encode, state_of}
use flydigi_vader.Protocol.Encode.{parse-encode}

-- The left stick right and up, A and the d-pad pressed.
abbrev report : Report
report = record {
  left_x = pos 32767;
  left_y = negsuc 999;
  right_x = pos 0;
  right_y = negsuc 32766;
  direction = up_right;
  a = true;
  b = false;
  x = false;
  y = true;
  lb = false;
  rb = true;
  select = false;
  start = false;
  l3 = true;
  r3 = false;
  ext = 5;
  ext2 = 8;
  left_trigger = 255;
  right_trigger = 17;
  gyro_x = negsuc 32767;
  gyro_y = pos 300;
  gyro_z = pos 0;
  accel_x = pos 0;
  accel_y = negsuc 0;
  accel_z = pos 4096;
}

report-IsRepresentable : IsRepresentable report
report-IsRepresentable = record {
  left_x = (omega arith, omega arith);
  left_y = (omega arith, omega arith);
  right_x = (omega arith, omega arith);
  right_y = (omega arith, omega arith);
  gyro_x = (omega arith, omega arith);
  gyro_y = (omega arith, omega arith);
  gyro_z = (omega arith, omega arith);
  accel_x = (omega arith, omega arith);
  accel_y = (omega arith, omega arith);
  accel_z = (omega arith, omega arith);
}

parse-encode_example : parse 0 (encode report) ≡ some (state_of report)
parse-encode_example = parse-encode 0 report report-IsRepresentable

-- A packet of 17 bytes with A pressed, the left stick at 0x0180.
abbrev pub short_packet : List ℕ
short_packet =
    0x5a ∷ 0xa5 ∷ 0xef ∷ 0x80 ∷ 0x01 ∷ 0 ∷ 0 ∷ 0 ∷ 0 ∷ 0 ∷ 0 ∷ 0x10 ∷ 0 ∷ 4 ∷ 0 ∷ 0 ∷ 200 ∷ []

abbrev pub short_state : GamepadState
short_state = record zero_state {
  left_x = pos 384;
  buttons = 1;
  ext_buttons = 4;
  right_trigger = 200;
}

pub short_packet-parse : parse 0 short_packet ≡ some short_state
unfolding parse decode parse_base parse_motion read_s16 parse_dpad parse_buttons set_flag
short_packet-parse = refl

unfoldable pub are_bytes : List ℕ → Bool
are_bytes [] = true
are_bytes (b ∷ rest) = ltb b 256 && are_bytes rest

pub are_bytes-All : (bytes : List ℕ) → are_bytes bytes ≡ true → All IsByte bytes
unfolding are_bytes
are_bytes-All [] e = tt
are_bytes-All (b ∷ rest) e = (ground arith, are_bytes-All rest (ground arith))

short_packet-are_bytes : are_bytes short_packet ≡ true
unfolding are_bytes
short_packet-are_bytes = refl

parse-IsInRange_example : IsInRange short_state
parse-IsInRange_example =
    parse-IsInRange 0 short_packet short_state (are_bytes-All short_packet short_packet-are_bytes)
      short_packet-parse

parse_in_bounds_example : parse 7 short_packet ≡ parse 9 short_packet
parse_in_bounds_example = parse_in_bounds 7 9 short_packet

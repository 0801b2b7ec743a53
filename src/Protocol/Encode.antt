-- ===== src/Protocol/Encode.antt =====
-- include/vader5/protocol.hpp: `parse` decodes the report of Protocol/Report.
use flydigi_vader.Base.{ℕ, ◌+◌, ◌*◌, ◌/◌, ◌%◌, ◌^◌, ◌≡◌, refl, ap, ◌∙◌, some, arith, bit_or, get_or}
use flydigi_vader.Base.Bits.{bit_or-shift, bit_and_nibble}
use flydigi_vader.Base.Int.{ℤ, pos, negsuc, neg, ◌≤ℤ◌, IsInt16, signed16}
use flydigi_vader.Protocol.{
  read_s16, parse_dpad, parse_base, parse_motion, decode, parse, flip_y, dpad_map,
}
use flydigi_vader.Protocol.Report.{
  Direction, centre, nibble, code, Report, weight, byte11, low, high, encode, state_of,
  IsRepresentable, pattern16, nibble-lt,
}
use flydigi_vader.Protocol.Flags.{buttons_roundtrip}

-- Two little-endian bytes give the integer back.
word_roundtrip : (v : ℤ) → IsInt16 v → signed16 (bit_or (low v) (high v * 2 ^ 8)) ≡ v
unfolding low high pattern16
word_roundtrip v h =
    rw (bit_or-shift 8 (pattern16 v % 256) (pattern16 v / 256) (omega arith)) (go v h)
  where
    go : (v : ℤ) → IsInt16 v → signed16 (pattern16 v % 256 + pattern16 v / 256 * 256) ≡ v
    go (pos n) h = ground arith
    go (negsuc n) h = ground arith

flip_neg : (y : ℤ) → negsuc 32766 ≤ℤ y → y ≤ℤ pos 32767 → flip_y (neg y) ≡ y
flip_neg y lo hi = ground arith

neg-IsInt16 : (y : ℤ) → negsuc 32766 ≤ℤ y → y ≤ℤ pos 32767 → IsInt16 (neg y)
neg-IsInt16 y lo hi = ground arith

-- The direction survives the nibble and the table.
low_nibble : (r : Report) → byte11 r % 16 ≡ nibble r.direction
unfolding byte11 weight
low_nibble r = ground (arith, nibble-lt r.direction)

dpad_roundtrip : (stray : ℕ) (r : Report) → parse_dpad stray (byte11 r) ≡ code r.direction
unfolding parse_dpad nibble code
dpad_roundtrip stray r = rw (bit_and_nibble (byte11 r), low_nibble r) (table r.direction)
  where
    table : (d : Direction) → get_or dpad_map (nibble d) stray ≡ code d
    table centre = refl
    table _ = refl

stick_roundtrip :
    (y : ℤ)
    → (negsuc 32766 ≤ℤ y) × (y ≤ℤ pos 32767)
    → flip_y (signed16 (bit_or (low (neg y)) (high (neg y) * 2 ^ 8))) ≡ y
stick_roundtrip y h =
    ap flip_y (word_roundtrip (neg y) (neg-IsInt16 y h.0 h.1)) ∙ flip_neg y h.0 h.1

decode-encode : (stray : ℕ) (r : Report) → IsRepresentable r → decode stray (encode r) ≡ state_of r
unfolding decode parse_base parse_motion read_s16 encode state_of
decode-encode stray r h = λ i. record {
  left_x = word_roundtrip r.left_x h.left_x i;
  left_y = stick_roundtrip r.left_y h.left_y i;
  right_x = word_roundtrip r.right_x h.right_x i;
  right_y = stick_roundtrip r.right_y h.right_y i;
  left_trigger = r.left_trigger;
  right_trigger = r.right_trigger;
  buttons = buttons_roundtrip r i;
  dpad = dpad_roundtrip stray r i;
  ext_buttons = r.ext;
  ext_buttons2 = r.ext2;
  gyro_x = word_roundtrip r.gyro_x h.gyro_x i;
  gyro_y = word_roundtrip r.gyro_y h.gyro_y i;
  gyro_z = word_roundtrip r.gyro_z h.gyro_z i;
  accel_x = word_roundtrip r.accel_x h.accel_x i;
  accel_y = word_roundtrip r.accel_y h.accel_y i;
  accel_z = word_roundtrip r.accel_z h.accel_z i;
}

-- A report laid out with little-endian axes, inverted Y axes, the button bits of bytes 11 and 12
-- and the d-pad nibble as up, right, down, left decodes to the state that it stands for: every
-- stick, trigger, motion axis, button and direction comes back, whatever a stray read would yield,
-- as long as the axes fit in 16 bits and no Y axis is -32768.
pub parse-encode :
    (stray : ℕ) (r : Report) → IsRepresentable r → parse stray (encode r) ≡ some (state_of r)
unfolding parse encode
parse-encode stray r h = ap some (decode-encode stray r h)

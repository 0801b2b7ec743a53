-- ===== src/Protocol/Report.antt =====
-- docs/protocol.md, "Interface 1 / EP2 IN": the 32-byte report, field by field, and the state that it
-- stands for. The d-pad's bits stand in the order of `DPAD_MAP` in include/vader5/protocol.hpp; the document
-- lists them in another.
use flydigi_vader.Base.{ℕ, ◌+◌, ◌-◌, ◌/◌, ◌%◌, ◌<◌, ◌≤◌, Bool, List, [], ◌∷◌, arith, if◌then◌else◌}
use flydigi_vader.Base.Int.{ℤ, pos, negsuc, neg, ◌≤ℤ◌, IsInt16}
use flydigi_vader.Types.{GamepadState}
use flydigi_vader.Types.Masks

-- The nine positions of the d-pad hat.
pub data Direction : Type 0 where
  centre up up_right right down_right down down_left left up_left : Direction

-- Bits 0 to 3 of byte 11 as `DPAD_MAP` orders them: up, right, down, left.
unfoldable pub nibble : Direction → ℕ
nibble centre = 0
nibble up = 1
nibble up_right = 1 + 2
nibble right = 2
nibble down_right = 4 + 2
nibble down = 4
nibble down_left = 4 + 8
nibble left = 8
nibble up_left = 1 + 8

-- The enumerator of `Dpad` for a position.
unfoldable pub code : Direction → ℕ
code centre = Masks.dpad_none
code up = Masks.dpad_up
code up_right = Masks.dpad_up_right
code right = Masks.dpad_right
code down_right = Masks.dpad_down_right
code down = Masks.dpad_down
code down_left = Masks.dpad_down_left
code left = Masks.dpad_left
code up_left = Masks.dpad_up_left

-- What the player does: the physical state behind one report.
pub record Report : Type 0 where
  pub left_x : ℤ
  pub left_y : ℤ
  pub right_x : ℤ
  pub right_y : ℤ
  pub direction : Direction
  pub a : Bool
  pub b : Bool
  pub x : Bool
  pub y : Bool
  pub lb : Bool
  pub rb : Bool
  pub select : Bool
  pub start : Bool
  pub l3 : Bool
  pub r3 : Bool
  pub ext : ℕ
  pub ext2 : ℕ
  pub left_trigger : ℕ
  pub right_trigger : ℕ
  pub gyro_x : ℤ
  pub gyro_y : ℤ
  pub gyro_z : ℤ
  pub accel_x : ℤ
  pub accel_y : ℤ
  pub accel_z : ℤ

unfoldable pub weight : Bool → ℕ → ℕ
weight on w = if on then w else 0

pub weight-le : (on : Bool) (w : ℕ) → weight on w ≤ w
unfolding weight
weight-le on w = ground arith

-- Byte 11, byte 12.
unfoldable pub byte11 : Report → ℕ
byte11 r = nibble r.direction + weight r.a 16 + weight r.b 32 + weight r.select 64 + weight r.x 128

unfoldable pub byte12 : Report → ℕ
byte12 r =
    weight r.y 1
    + weight r.start 2
    + weight r.lb 4
    + weight r.rb 8
    + weight r.l3 64
    + weight r.r3 128

-- The 16-bit pattern of an integer, and its bytes in little-endian order.
unfoldable pub pattern16 : ℤ → ℕ
pattern16 (pos n) = n
pattern16 (negsuc n) = 65536 - (n + 1)

unfoldable pub low : ℤ → ℕ
low v = pattern16 v % 256

unfoldable pub high : ℤ → ℕ
high v = pattern16 v / 256

-- The stick's Y axis points up on the wire and down in the state.
unfoldable pub encode : Report → List ℕ
encode r =
    0x5a
    ∷ 0xa5
    ∷ 0xef
    ∷ low r.left_x
    ∷ high r.left_x
    ∷ low (neg r.left_y)
    ∷ high (neg r.left_y)
    ∷ low r.right_x
    ∷ high r.right_x
    ∷ low (neg r.right_y)
    ∷ high (neg r.right_y)
    ∷ byte11 r
    ∷ byte12 r
    ∷ r.ext
    ∷ r.ext2
    ∷ r.left_trigger
    ∷ r.right_trigger
    ∷ low r.gyro_x
    ∷ high r.gyro_x
    ∷ low r.gyro_y
    ∷ high r.gyro_y
    ∷ low r.gyro_z
    ∷ high r.gyro_z
    ∷ low r.accel_x
    ∷ high r.accel_x
    ∷ low r.accel_y
    ∷ high r.accel_y
    ∷ low r.accel_z
    ∷ high r.accel_z
    ∷ 0
    ∷ 0
    ∷ 0
    ∷ []

-- The state that the report stands for.
unfoldable pub state_of : Report → GamepadState
state_of r = record {
  left_x = r.left_x;
  left_y = r.left_y;
  right_x = r.right_x;
  right_y = r.right_y;
  left_trigger = r.left_trigger;
  right_trigger = r.right_trigger;
  buttons =
      weight r.a Masks.pad_a
      + weight r.b Masks.pad_b
      + weight r.x Masks.pad_x
      + weight r.y Masks.pad_y
      + weight r.lb Masks.pad_lb
      + weight r.rb Masks.pad_rb
      + weight r.select Masks.pad_select
      + weight r.start Masks.pad_start
      + weight r.l3 Masks.pad_l3
      + weight r.r3 Masks.pad_r3;
  dpad = code r.direction;
  ext_buttons = r.ext;
  ext_buttons2 = r.ext2;
  gyro_x = r.gyro_x;
  gyro_y = r.gyro_y;
  gyro_z = r.gyro_z;
  accel_x = r.accel_x;
  accel_y = r.accel_y;
  accel_z = r.accel_z;
}

-- The values that the wire can carry; the Y axes keep -32768 free, since it has no negation.
pub record IsRepresentable (r : Report) : Type 0 where
  pub left_x : IsInt16 r.left_x
  pub left_y : (negsuc 32766 ≤ℤ r.left_y) × (r.left_y ≤ℤ pos 32767)
  pub right_x : IsInt16 r.right_x
  pub right_y : (negsuc 32766 ≤ℤ r.right_y) × (r.right_y ≤ℤ pos 32767)
  pub gyro_x : IsInt16 r.gyro_x
  pub gyro_y : IsInt16 r.gyro_y
  pub gyro_z : IsInt16 r.gyro_z
  pub accel_x : IsInt16 r.accel_x
  pub accel_y : IsInt16 r.accel_y
  pub accel_z : IsInt16 r.accel_z

pub nibble-lt : (d : Direction) → nibble d < 16
unfolding nibble
nibble-lt centre = omega arith
nibble-lt _ = omega arith

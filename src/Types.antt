-- ===== src/Types.antt =====
-- include/vader5/types.hpp: the controller state and the button masks.
use flydigi_vader.Base.{ℕ}
use flydigi_vader.Base.Int.{ℤ, pos}
pub mod Masks

-- `GamepadState`. The 16-bit signed fields are integers, the unsigned ones numbers.
pub record GamepadState : Type 0 where
  pub left_x : ℤ
  pub left_y : ℤ
  pub right_x : ℤ
  pub right_y : ℤ
  pub left_trigger : ℕ
  pub right_trigger : ℕ
  pub buttons : ℕ
  pub dpad : ℕ
  pub ext_buttons : ℕ
  pub ext_buttons2 : ℕ
  pub gyro_x : ℤ
  pub gyro_y : ℤ
  pub gyro_z : ℤ
  pub accel_x : ℤ
  pub accel_y : ℤ
  pub accel_z : ℤ

-- `GamepadState{}`
abbrev pub zero_state : GamepadState
zero_state = record {
  left_x = pos 0;
  left_y = pos 0;
  right_x = pos 0;
  right_y = pos 0;
  left_trigger = 0;
  right_trigger = 0;
  buttons = 0;
  dpad = 0;
  ext_buttons = 0;
  ext_buttons2 = 0;
  gyro_x = pos 0;
  gyro_y = pos 0;
  gyro_z = pos 0;
  accel_x = pos 0;
  accel_y = pos 0;
  accel_z = pos 0;
}

-- ===== src/Config.antt =====
-- include/vader5/config.hpp: the configuration. `F` is the type of `float`. An `unordered_map` is
-- the list of its entries in iteration order.
pub mod Target
pub mod Toml
pub mod Path
pub mod Load
use flydigi_vader.Base.{ℕ, Bool, String, List, Option}
use flydigi_vader.Base.Int.{ℤ}

pub data RemapType : Type 0 where
  disabled key mouse_button mouse_move gamepad_button : RemapType

pub record RemapTarget : Type 0 where
  pub type : RemapType
  pub code : ℕ
  pub btn_mask : ℕ
  pub ext_mask : ℕ

pub data GyroMode : Type 0 where
  off mouse joystick : GyroMode

pub record GyroConfig (F : Type 0) : Type 0 where
  pub mode : GyroMode
  pub sensitivity_x : F
  pub sensitivity_y : F
  pub deadzone : ℤ
  pub smoothing : F
  pub curve : F
  pub invert_x : Bool
  pub invert_y : Bool

pub data StickMode : Type 0 where
  gamepad mouse scroll : StickMode

pub record StickConfig (F : Type 0) : Type 0 where
  pub mode : StickMode
  pub deadzone : ℤ
  pub sensitivity : F
  pub suppress_gamepad : Bool

pub data DpadMode : Type 0 where
  gamepad arrows : DpadMode

pub record DpadConfig : Type 0 where
  pub mode : DpadMode
  pub suppress_gamepad : Bool

pub data Activation : Type 0 where
  hold toggle : Activation

pub record LayerConfig (F : Type 0) : Type 0 where
  pub name : String
  pub trigger : String
  pub tap : Option RemapTarget
  pub hold_timeout : ℤ
  pub activation : Activation
  pub gyro : Option (GyroConfig F)
  pub stick_left : Option (StickConfig F)
  pub stick_right : Option (StickConfig F)
  pub dpad : Option DpadConfig
  pub remap : List (String × RemapTarget)

pub record Config (F : Type 0) : Type 0 where
  pub emulate_elite : Bool
  pub ext_mappings : List (Option ℕ)
  pub button_remaps : List (String × RemapTarget)
  pub gyro : GyroConfig F
  pub left_stick : StickConfig F
  pub right_stick : StickConfig F
  pub dpad : DpadConfig
  pub layers : List (String × LayerConfig F)

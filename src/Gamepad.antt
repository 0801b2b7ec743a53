-- ===== src/Gamepad.antt =====
-- include/vader5/gamepad.hpp and src/gamepad.cpp: the state of `Gamepad`, button tests and the
-- active layer. Time is the reading of the steady clock in nanoseconds.
pub mod Layers
pub mod Motion
pub mod Remaps
pub mod Poll
pub mod Rumble
pub mod Redundant
pub mod Open
use flydigi_vader.Base.{
  ℕ, ◌^◌, Bool, true, false, ◌||◌, String, ◌is◌, List, [], ◌∷◌, Option, none, some, if◌then◌else◌,
  has, ltb, lookup, contains,
}
use flydigi_vader.Base.Int.{ℤ, pos}
use flydigi_vader.Types.{GamepadState}
use flydigi_vader.Types.Masks
use flydigi_vader.Config.{Config, LayerConfig, GyroConfig, StickConfig, DpadConfig}
use flydigi_vader.Uinput.{Uinput}
use flydigi_vader.InputDevice.{InputDevice}

pub record TapHoldState : Type 0 where
  pub layer_name : String
  pub press_time : ℕ
  pub layer_activated : Bool

pub record SuppressState : Type 0 where
  pub left_stick : Bool
  pub right_stick : Bool
  pub dpad : Bool
  pub left_trigger : Bool
  pub right_trigger : Bool

-- `SuppressState{}`
abbrev pub no_suppress : SuppressState
no_suppress = record {
  left_stick = false;
  right_stick = false;
  dpad = false;
  left_trigger = false;
  right_trigger = false;
}

-- An `unordered_set` of names.
abbrev pub NameSet : Type 0
NameSet = List (String × Unit {0})

-- The fields of `Gamepad`, without the two descriptors that only its constructor and destructor
-- use (`redundant_`) or that Poll passes beside it (`hidraw_`).
pub record Gamepad (F : Type 0) : Type 0 where
  pub uinput : Uinput
  pub input : Option InputDevice
  pub config : Config F
  pub prev_state : GamepadState
  pub tap_hold_states : List (String × TapHoldState)
  pub toggled_layers : NameSet
  pub gyro_vel_x : F
  pub gyro_vel_y : F
  pub gyro_accum_x : F
  pub gyro_accum_y : F
  pub scroll_accum_v : F
  pub scroll_accum_h : F
  pub gyro_stick_x : ℤ
  pub gyro_stick_y : ℤ
  pub dpad_up : Bool
  pub dpad_down : Bool
  pub dpad_left : Bool
  pub dpad_right : Bool
  pub suppressed_buttons : ℕ
  pub suppressed_ext : ℕ
  pub prev_suppressed_buttons : ℕ
  pub prev_suppressed_ext : ℕ
  pub injected_buttons : ℕ
  pub injected_ext : ℕ
  pub prev_injected_buttons : ℕ
  pub prev_injected_ext : ℕ
  pub suppress : SuppressState
  pub prev_suppress : SuppressState
  pub last_rumble_time : ℕ

-- `Gamepad::is_button_pressed`
unfoldable pub is_button_pressed : GamepadState → String → Bool
is_button_pressed state name =
    if name is "LM"
    then has state.ext_buttons Masks.ext_lm
    else if name is "RM"
    then has state.ext_buttons Masks.ext_rm
    else if name is "C"
    then has state.ext_buttons Masks.ext_c
    else if name is "Z"
    then has state.ext_buttons Masks.ext_z
    else if name is "M1"
    then has state.ext_buttons Masks.ext_m1
    else if name is "M2"
    then has state.ext_buttons Masks.ext_m2
    else if name is "M3"
    then has state.ext_buttons Masks.ext_m3
    else if name is "M4"
    then has state.ext_buttons Masks.ext_m4
    else if name is "A"
    then has state.buttons Masks.pad_a
    else if name is "B"
    then has state.buttons Masks.pad_b
    else if name is "X"
    then has state.buttons Masks.pad_x
    else if name is "Y"
    then has state.buttons Masks.pad_y
    else if name is "RB"
    then has state.buttons Masks.pad_rb
    else if name is "LB"
    then has state.buttons Masks.pad_lb
    else if name is "START"
    then has state.buttons Masks.pad_start
    else if name is "SELECT"
    then has state.buttons Masks.pad_select
    else if name is "L3"
    then has state.buttons Masks.pad_l3
    else if name is "R3"
    then has state.buttons Masks.pad_r3
    else if name is "RT"
    then ltb 128 state.right_trigger
    else if name is "LT"
    then ltb 128 state.left_trigger
    else false

-- The test of the loop in `get_active_layer`: toggled on, or held past its timeout.
unfoldable pub layer_on : List (String × TapHoldState) → NameSet → String → Bool
layer_on held toggled name =
    if contains name toggled
    then true
    else elim (lookup name held) [ none ↦ false | some st ↦ st.layer_activated ]

module _ {F : Type 0} where
  -- `get_active_layer`: the entry that the returned pointer is in, `none` for the null pointer.
  unfoldable pub first_on :
      List (String × TapHoldState)
      → NameSet
      → List (String × LayerConfig F)
      → Option (String × LayerConfig F)
  first_on held toggled [] = none
  first_on held toggled ((name, layer) ∷ rest) =
      let later = first_on held toggled rest in
      if layer_on held toggled name then some (name, layer) else later

  unfoldable pub get_active_layer : Gamepad F → Option (String × LayerConfig F)
  get_active_layer g = first_on g.tap_hold_states g.toggled_layers g.config.layers

  -- `layer != nullptr && layer->field ? *layer->field : base`
  abbrev pub override {ℓ} :
      {A : Type ℓ} → Option (String × LayerConfig F) → (LayerConfig F → Option A) → A → A
  override none field base = base
  override (some (name, layer)) field base = elim (field layer) [ none ↦ base | some a ↦ a ]

  unfoldable pub get_effective_gyro : Gamepad F → GyroConfig F
  get_effective_gyro g = override (get_active_layer g) (λ l. l.gyro) g.config.gyro

  unfoldable pub get_effective_stick_left : Gamepad F → StickConfig F
  get_effective_stick_left g = override (get_active_layer g) (λ l. l.stick_left) g.config.left_stick

  unfoldable pub get_effective_stick_right : Gamepad F → StickConfig F
  get_effective_stick_right g =
      override (get_active_layer g) (λ l. l.stick_right) g.config.right_stick

  unfoldable pub get_effective_dpad : Gamepad F → DpadConfig
  get_effective_dpad g = override (get_active_layer g) (λ l. l.dpad) g.config.dpad

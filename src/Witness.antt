-- ===== src/Witness.antt =====
-- Concrete controllers, reports and configurations, and the theorems at them.
pub mod Decode
pub mod Events
pub mod Layers
pub mod Poll
pub mod Arrows
pub mod Names
pub mod Load
pub mod Driver
pub mod Open
pub mod Daemon
pub mod Reports
pub mod Handles
pub mod Search
pub mod Tool
pub mod Removal
use flydigi_vader.Base.{ℕ, ◌+◌, ◌*◌, Bool, true, false, String, List, [], ◌∷◌, Option, none, some}
use flydigi_vader.Base.Int.{ℤ, pos, negsuc, neg, ltb_ℤ, leb_ℤ, ◌==ℤ◌, abs}
use flydigi_vader.Kernel.{InputEvent, Fd, wrote, failed}
use flydigi_vader.Floats.{Floats}
use flydigi_vader.Types.{GamepadState, zero_state}
use flydigi_vader.Config.{
  Config, GyroConfig, StickConfig, DpadConfig, LayerConfig, RemapTarget, GyroMode, StickMode,
  DpadMode, Activation, key, gamepad_button,
}
use flydigi_vader.Uinput.{Uinput}
use flydigi_vader.InputDevice.{InputDevice}
use flydigi_vader.Gamepad.{Gamepad, no_suppress}

-- A device that takes two events, then the rest.
abbrev pub short_fd : Fd
short_fd = record { script = wrote 2 ∷ []; wire = [] }

abbrev pub ready_fd : Fd
ready_fd = record { script = []; wire = [] }

-- Whole numbers in the place of floats, with operations that keep their first argument: the
-- theorems ask for no law of the operations.
abbrev pub whole : Floats
whole = record {
  F = ℤ;
  of_int = λ n. n;
  to_int = λ n. n;
  literal = λ n d. pos n;
  add = λ a b. a;
  sub = λ a b. a;
  mul = λ a b. a;
  div = λ a b. a;
  neg = neg;
  fabs = λ a. pos (abs a);
  pow = λ a b. a;
  copysign = λ a b. a;
  eq = ◌==ℤ◌;
  lt = ltb_ℤ;
  le = leb_ℤ;
}

abbrev pub gyro_config : GyroConfig ℤ
gyro_config = record {
  mode = GyroMode.off;
  sensitivity_x = pos 1;
  sensitivity_y = pos 1;
  deadzone = pos 0;
  smoothing = pos 0;
  curve = pos 1;
  invert_x = false;
  invert_y = false;
}

abbrev pub stick_config : StickConfig ℤ
stick_config = record {
  mode = StickMode.gamepad;
  deadzone = pos 128;
  sensitivity = pos 1;
  suppress_gamepad = false;
}

abbrev pub dpad_config : DpadConfig
dpad_config = record { mode = DpadMode.gamepad; suppress_gamepad = false }

-- M1 taps B, and while it is held X presses A.
abbrev pub layer : LayerConfig ℤ
layer = record {
  name = "aim";
  trigger = "M1";
  tap = some (record { type = gamepad_button; code = 0; btn_mask = 2; ext_mask = 0 });
  hold_timeout = pos 200;
  activation = Activation.hold;
  gyro = none;
  stick_left = none;
  stick_right = none;
  dpad = none;
  remap = ("X", record { type = gamepad_button; code = 0; btn_mask = 1; ext_mask = 0 }) ∷ [];
}

abbrev pub config : Config ℤ
config = record {
  emulate_elite = false;
  ext_mappings = [];
  button_remaps =
      ("Y", record { type = gamepad_button; code = 0; btn_mask = 2; ext_mask = 0 }) ∷ [];
  gyro = gyro_config;
  left_stick = stick_config;
  right_stick = stick_config;
  dpad = dpad_config;
  layers = ("aim", layer) ∷ [];
}

abbrev pub uinput : Uinput
uinput = record { fd = ready_fd; ext_mappings = []; ff_effects = []; events_buffer = [] }

abbrev pub gamepad : Gamepad ℤ
gamepad = record {
  uinput = uinput;
  input = some (record { fd = ready_fd; events_buffer = [] });
  config = config;
  prev_state = zero_state;
  tap_hold_states = [];
  toggled_layers = [];
  gyro_vel_x = pos 0;
  gyro_vel_y = pos 0;
  gyro_accum_x = pos 0;
  gyro_accum_y = pos 0;
  scroll_accum_v = pos 0;
  scroll_accum_h = pos 0;
  gyro_stick_x = pos 0;
  gyro_stick_y = pos 0;
  dpad_up = false;
  dpad_down = false;
  dpad_left = false;
  dpad_right = false;
  suppressed_buttons = 0;
  suppressed_ext = 0;
  prev_suppressed_buttons = 0;
  prev_suppressed_ext = 0;
  injected_buttons = 0;
  injected_ext = 0;
  prev_injected_buttons = 0;
  prev_injected_ext = 0;
  suppress = no_suppress;
  prev_suppress = no_suppress;
  last_rumble_time = 0;
}

-- The same controller with the layer held past its timeout.
abbrev pub aiming : Gamepad ℤ
aiming = record gamepad {
  tap_hold_states =
      ("aim", record { layer_name = "aim"; press_time = 0; layer_activated = true }) ∷ [];
}

-- M1 down; X and Y down.
abbrev pub m1_down : GamepadState
m1_down = record zero_state { ext_buttons = 4 }

abbrev pub x_y_down : GamepadState
x_y_down = record zero_state { buttons = 12 }

-- ===== src/Gamepad/Open.antt =====
-- src/gamepad.cpp: `needs_mouse` and `Gamepad::open`, which makes a gamepad from a configuration.
pub mod Unneeded
pub mod Restored
pub mod Configured
use flydigi_vader.Base.{
  ℕ, ◌⊎◌, inl, inr, Bool, true, false, not, ◌&&◌, ◌||◌, String, List, [], ◌∷◌, Option, none, some,
  if◌then◌else◌,
}
use flydigi_vader.Base.Int.{pos}
use flydigi_vader.Floats.{Floats}
use flydigi_vader.Types.{zero_state}
use flydigi_vader.Kernel.{WriteResult}
use flydigi_vader.Hidraw.{Hidraw, send_init, send_test_mode}
use flydigi_vader.Config.{
  Config, LayerConfig, GyroMode, GyroConfig, StickMode, StickConfig, DpadConfig, RemapTarget,
  RemapType, key, mouse_button,
}
use flydigi_vader.Uinput.{Uinput}
use flydigi_vader.Uinput.Create as UinputCreate
use flydigi_vader.InputDevice.{InputDevice}
use flydigi_vader.InputDevice.Create as InputCreate
use flydigi_vader.Gamepad.{Gamepad, no_suppress}
use flydigi_vader.Gamepad.Motion.{is_mouse, is_scroll}
use flydigi_vader.Gamepad.Remaps.{is_arrows}

abbrev pub is_gyro_mouse : GyroMode → Bool
is_gyro_mouse GyroMode.mouse = true
is_gyro_mouse _ = false

-- `target.type == RemapTarget::MouseButton || target.type == RemapTarget::Key`
abbrev pub sends_key : RemapType → Bool
sends_key key = true
sends_key mouse_button = true
sends_key _ = false

-- `o && test(*o)`
abbrev pub holds {ℓ} : {A : Type ℓ} → (A → Bool) → Option A → Bool
holds test none = false
holds test (some a) = test a

-- The loop over a remap table.
unfoldable pub remaps_need : List (String × RemapTarget) → Bool
remaps_need [] = false
remaps_need ((btn, target) ∷ rest) = if sends_key target.type then true else remaps_need rest

module _ {F : Type 0} where
  -- The body of the loop over the layers.
  unfoldable pub layer_needs : LayerConfig F → Bool
  layer_needs layer =
      if holds (λ (c : GyroConfig F). is_gyro_mouse c.mode) layer.gyro
      then true
      else if holds (λ (c : StickConfig F). is_mouse c.mode) layer.stick_right
      then true
      else if holds (λ (c : StickConfig F). is_mouse c.mode) layer.stick_left
      then true
      else if holds (λ (c : StickConfig F). is_scroll c.mode) layer.stick_left
      then true
      else if holds (λ (c : DpadConfig). is_arrows c.mode) layer.dpad
      then true
      else if remaps_need layer.remap
      then true
      else holds (λ (t : RemapTarget). sends_key t.type) layer.tap

  unfoldable pub layers_need : List (String × LayerConfig F) → Bool
  layers_need [] = false
  layers_need ((name, layer) ∷ rest) = if layer_needs layer then true else layers_need rest

  unfoldable pub needs_mouse : Config F → Bool
  needs_mouse cfg =
      if is_gyro_mouse cfg.gyro.mode
      then true
      else if is_mouse cfg.left_stick.mode || is_scroll cfg.left_stick.mode
      then true
      else if is_mouse cfg.right_stick.mode
      then true
      else if is_arrows cfg.dpad.mode
      then true
      else if not cfg.emulate_elite && remaps_need cfg.button_remaps
      then true
      else layers_need cfg.layers

-- What the system answers while a gamepad is opened: for the hidraw node and for each virtual device
-- an errno or what later calls on it yield, and the errno of a failed `UI_DEV_CREATE`.
pub record Answers : Type 0 where
  pub hid : ℕ ⊎ Hidraw
  pub pad : ℕ ⊎ List WriteResult
  pub pad_created : Option ℕ
  pub keyboard : ℕ ⊎ List WriteResult
  pub keyboard_created : Option ℕ

-- The result of `open`: the error with the device that was opened before, or the gamepad with its
-- device.
pub data Opened (F : Type 0) : Type 0 where
  refused : ℕ → Option Hidraw → Opened F
  opened : Gamepad F → Hidraw → Opened F

-- `std::errc::protocol_error`
abbrev pub eproto : ℕ
eproto = 71

module _ (fl : Floats) where
  open fl use {F}

  abbrev pub f0 : F
  f0 = fl.literal 0 1

  -- The constructor. The clock of `last_rumble_time_` starts at 0.
  unfoldable pub new_gamepad : Config F → Uinput → Option InputDevice → Gamepad F
  new_gamepad cfg uinput input = record {
    uinput = uinput;
    input = input;
    config = cfg;
    prev_state = zero_state;
    tap_hold_states = [];
    toggled_layers = [];
    gyro_vel_x = f0;
    gyro_vel_y = f0;
    gyro_accum_x = f0;
    gyro_accum_y = f0;
    scroll_accum_v = f0;
    scroll_accum_h = f0;
    gyro_stick_x = pos 0;
    gyro_stick_y = pos 0;
    dpad_up = false;
    dpad_down = false;
    dpad_left = false;
    dpad_right = false;
    suppressed_buttons = 0;
    suppressed_ext = 0;
    prev_suppressed_buttons = 0;
    prev_suppressed_ext = 0;
    injected_buttons = 0;
    injected_ext = 0;
    prev_injected_buttons = 0;
    prev_injected_ext = 0;
    suppress = no_suppress;
    prev_suppress = no_suppress;
    last_rumble_time = 0;
  }

  -- `open` behind `Uinput::create`.
  unfoldable pub open_input : Answers → Config F → Uinput → Hidraw → Opened F
  open_input a cfg uinput h =
      if needs_mouse cfg
      then elim (InputCreate.create a.keyboard a.keyboard_created).1 [
        | inl errno ↦ refused errno (some (send_test_mode false h).0)
        | inr dev ↦ opened (new_gamepad cfg uinput (some dev)) h
      ]
      else opened (new_gamepad cfg uinput none) h

  -- `open` behind the start-up of the controller.
  unfoldable pub open_uinput : Answers → Config F → Hidraw → Opened F
  open_uinput a cfg h =
      elim (UinputCreate.create cfg.ext_mappings cfg.emulate_elite a.pad a.pad_created).1 [
        | inl errno ↦ refused errno (some (send_test_mode false h).0)
        | inr uinput ↦ open_input a cfg uinput h
      ]

  -- `send_init(*hid) && send_test_mode(*hid, true)`
  unfoldable pub start : Hidraw → Hidraw × Bool
  start h =
      let (ready, initialized) = send_init h in
      if initialized then send_test_mode true ready else (ready, false)

  -- `Gamepad::open`. Whether the redundant input device could be grabbed changes only `redundant_`.
  unfoldable pub open_gamepad : Answers → Config F → Opened F
  open_gamepad a cfg = elim a.hid [
    | inl errno ↦ refused errno none
    | inr h ↦
        let (ready, started) = start h in
        if started then open_uinput a cfg ready else refused eproto (some ready)
  ]

-- ===== src/Gamepad/Open/Unneeded.antt =====
-- src/gamepad.cpp: what `needs_mouse` means for the settings in effect.
pub mod Handlers
use flydigi_vader.Base.{
  ℕ, ◌≡◌, refl, sym, subst, ◌∙◌, ap, Bool, true, false, not, ◌&&◌, ◌||◌, String, List, [], ◌∷◌,
  Option, none, some, if◌then◌else◌, inl, inr, Bool-cases, Option-cases, arith, All, lookup,
  is_some,
}
use flydigi_vader.Floats.{Floats}
use flydigi_vader.Types.{GamepadState}
use flydigi_vader.Config.{
  Config, LayerConfig, GyroMode, GyroConfig, StickMode, StickConfig, DpadConfig, RemapTarget,
  RemapType,
}
use flydigi_vader.InputDevice.{InputDevice}
use flydigi_vader.Gamepad.{
  Gamepad, TapHoldState, NameSet, first_on, get_active_layer, layer_on, override,
  get_effective_gyro, get_effective_stick_left, get_effective_stick_right, get_effective_dpad,
  is_button_pressed,
}
use flydigi_vader.Gamepad.Motion.{
  is_mouse, is_scroll, process_gyro, process_mouse_stick, process_scroll_stick, gyro_off,
  gyro_joystick,
}
use flydigi_vader.Gamepad.Remaps.{
  is_arrows, process_layer_dpad, arrow_keys, update_key, base_remap, base_remaps,
  process_base_remaps, layer_remap, layer_remaps, layer_buttons, process_layer_buttons,
  apply_target, suppress_button, inject, send_target,
}
use flydigi_vader.Gamepad.Layers.{
  emit_tap, tap_device, tap_if_pending, held_step, hold_step, toggle_step, layer_step, layer_steps,
  update_tap_hold,
}
use flydigi_vader.Gamepad.Poll.{begin_report, silence_triggers, handlers}
use flydigi_vader.Gamepad.Poll.Frame.{frame}
use flydigi_vader.Gamepad.Open.{
  is_gyro_mouse, sends_key, holds, remaps_need, layer_needs, layers_need, needs_mouse,
}

-- The parts of a gamepad that an input device depends on.
pub record Kept (F : Type 0) : Type 0 where
  pub input : Option InputDevice
  pub config : Config F
  pub dpad_up : Bool
  pub dpad_down : Bool
  pub dpad_left : Bool
  pub dpad_right : Bool

module _ {F : Type 0} where
  -- The right stick does not scroll, which `needs_mouse` does not look at.
  abbrev pub NoScroll : LayerConfig F → Type 0
  NoScroll layer = holds (λ (c : StickConfig F). is_scroll c.mode) layer.stick_right ≡ false

  pub record Idle (layer : LayerConfig F) : Type 0 where
    pub gyro : holds (λ (c : GyroConfig F). is_gyro_mouse c.mode) layer.gyro ≡ false
    pub right_mouse : holds (λ (c : StickConfig F). is_mouse c.mode) layer.stick_right ≡ false
    pub right_scroll : NoScroll layer
    pub left_mouse : holds (λ (c : StickConfig F). is_mouse c.mode) layer.stick_left ≡ false
    pub left_scroll : holds (λ (c : StickConfig F). is_scroll c.mode) layer.stick_left ≡ false
    pub dpad : holds (λ (c : DpadConfig). is_arrows c.mode) layer.dpad ≡ false
    pub remap : remaps_need layer.remap ≡ false
    pub tap : holds (λ (t : RemapTarget). sends_key t.type) layer.tap ≡ false

  layer_needs-Idle :
      (layer : LayerConfig F) → layer_needs layer ≡ false → NoScroll layer → Idle layer
  unfolding layer_needs
  layer_needs-Idle layer e h = record {
    gyro = ground arith;
    right_mouse = ground arith;
    right_scroll = h;
    left_mouse = ground arith;
    left_scroll = ground arith;
    dpad = ground arith;
    remap = ground arith;
    tap = ground arith;
  }

  pub layers_need-All :
      (layers : List (String × LayerConfig F))
      → layers_need layers ≡ false
      → All (λ e. NoScroll e.1) layers
      → All (λ e. Idle e.1) layers
  unfolding layers_need
  layers_need-All [] e h = tt
  layers_need-All ((name, layer) ∷ rest) e h =
      (layer_needs-Idle layer (ground arith) h.0, layers_need-All rest (ground arith) h.1)

  chosen :
      (b : Bool) (x y : String × LayerConfig F) (later : Option (String × LayerConfig F))
      → b ≡ true
      → (if b then some x else later) ≡ some y
      → x ≡ y
  chosen true x y later on e = cc e
  chosen false x y later on e = ground arith

  -- The active layer is one of the configured ones.
  first_on-Idle :
      (held : List (String × TapHoldState)) (toggled : NameSet)
      (layers : List (String × LayerConfig F)) (name : String) (layer : LayerConfig F)
      → All (λ e. Idle e.1) layers
      → first_on held toggled layers ≡ some (name, layer)
      → Idle layer
  unfolding first_on
  first_on-Idle held toggled [] name layer h e = cc e
  first_on-Idle held toggled ((n, l) ∷ rest) name layer h e =
      elim (Bool-cases (layer_on held toggled n)) [
        | inl on ↦
            subst (λ x. Idle x.1)
              (chosen (layer_on held toggled n) (n, l) (name, layer) (first_on held toggled rest) on
                e)
              h.0
        | inr off ↦ first_on-Idle held toggled rest name layer h.1 (ground arith)
      ]

  abbrev pub kept : Gamepad F → Kept F
  kept g = record {
    input = g.input;
    config = g.config;
    dpad_up = g.dpad_up;
    dpad_down = g.dpad_down;
    dpad_left = g.dpad_left;
    dpad_right = g.dpad_right;
  }

  -- Nothing in them asks for an input device.
  pub record Unused (k : Kept F) : Type 0 where
    pub gyro : is_gyro_mouse k.config.gyro.mode ≡ false
    pub right_mouse : is_mouse k.config.right_stick.mode ≡ false
    pub right_scroll : is_scroll k.config.right_stick.mode ≡ false
    pub left_mouse : is_mouse k.config.left_stick.mode ≡ false
    pub left_scroll : is_scroll k.config.left_stick.mode ≡ false
    pub dpad : is_arrows k.config.dpad.mode ≡ false
    pub remaps : (not k.config.emulate_elite && remaps_need k.config.button_remaps) ≡ false
    pub layers : All (λ e. Idle e.1) k.config.layers
    pub up : k.dpad_up ≡ false
    pub down : k.dpad_down ≡ false
    pub left : k.dpad_left ≡ false
    pub right : k.dpad_right ≡ false

  module _ (g : Gamepad F) (h : Unused (kept g)) where
    pub active-Idle :
        (name : String) (layer : LayerConfig F)
        → get_active_layer g ≡ some (name, layer)
        → Idle layer
    unfolding get_active_layer
    active-Idle name layer e =
        first_on-Idle g.tap_hold_states g.toggled_layers g.config.layers name layer h.layers e

    -- A test that the base setting fails, and that of every idle layer, fails.
    pub override-false :
        {A : Type 0} (test : A → Bool) (field : LayerConfig F → Option A) (base : A)
        → test base ≡ false
        → ((layer : LayerConfig F) → Idle layer → holds test (field layer) ≡ false)
        → test (override (get_active_layer g) field base) ≡ false
    override-false test field base b l = elim (Option-cases (get_active_layer g)) [
      | inl e ↦ rw e b
      | inr ((name, layer), e) ↦ rw e (elim (Option-cases (field layer)) [
        | inl f ↦ rw (f, override) b
        | inr (a, f) ↦ let i = l layer (active-Idle name layer e) in ground arith
      ])
    ]

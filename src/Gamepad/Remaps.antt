-- ===== src/Gamepad/Remaps.antt =====
-- src/gamepad.cpp: `process_layer_dpad`, `process_base_remaps`, `process_layer_buttons`.
pub mod ArrowKeys
pub mod Arrows
pub mod Tables
pub mod BaseTable
pub mod Suppression
pub mod Width
use flydigi_vader.Base.{
  ℕ, Bool, true, false, ◌&&◌, ◌||◌, String, List, [], ◌∷◌, Option, none, some, if◌then◌else◌,
  bit_or, is_some, contains, differs,
}
use flydigi_vader.Kernel.Codes
use flydigi_vader.Types.{GamepadState}
use flydigi_vader.Types.Masks.{button_to_masks}
use flydigi_vader.Config.{
  LayerConfig, RemapTarget, RemapType, disabled, key, mouse_button, mouse_move, gamepad_button,
  DpadMode,
}
use flydigi_vader.Uinput.{is_dpad_up, is_dpad_down, is_dpad_left, is_dpad_right}
use flydigi_vader.InputDevice
use flydigi_vader.InputDevice.{InputDevice, flush}
use flydigi_vader.Gamepad.{Gamepad, is_button_pressed, get_active_layer, get_effective_dpad}

-- `KEY_UP`, `KEY_DOWN`, `KEY_LEFT`, `KEY_RIGHT` of linux/input-event-codes.h.
abbrev pub key_up : ℕ
key_up = 103

abbrev pub key_down : ℕ
key_down = 108

abbrev pub key_left : ℕ
key_left = 105

abbrev pub key_right : ℕ
key_right = 106

abbrev pub is_arrows : DpadMode → Bool
is_arrows DpadMode.arrows = true
is_arrows DpadMode.gamepad = false

-- The lambda `update_key` on the device; the flag that it writes takes the value `want`.
unfoldable pub update_key : Bool → Bool → ℕ → InputDevice → InputDevice
update_key current want code d = if differs current want then InputDevice.key code want d else d

-- The key to hold down or release for a target, then a `sync`.
unfoldable pub send_target : RemapTarget → RemapType → Bool → InputDevice → InputDevice
send_target target key pressed d = flush (InputDevice.key target.code pressed d)
send_target target mouse_button pressed d = flush (InputDevice.click target.code pressed d)
send_target target disabled pressed d = d
send_target target mouse_move pressed d = d
send_target target gamepad_button pressed d = d

module _ {F : Type 0} where
  -- The four `update_key` calls and the `sync` of `process_layer_dpad`.
  unfoldable pub arrow_keys : Bool → ℕ → InputDevice → Gamepad F → Gamepad F
  unfolding update_key is_dpad_up is_dpad_down is_dpad_left is_dpad_right
  arrow_keys active dpad d g =
      let want_up = active && is_dpad_up dpad in
      let want_down = active && is_dpad_down dpad in
      let want_left = active && is_dpad_left dpad in
      let want_right = active && is_dpad_right dpad in
      let d1 = update_key g.dpad_up want_up key_up d in
      let d2 = update_key g.dpad_down want_down key_down d1 in
      let d3 = update_key g.dpad_left want_left key_left d2 in
      let d4 = update_key g.dpad_right want_right key_right d3 in
      let changed =
        differs g.dpad_up want_up
        || differs g.dpad_down want_down
        || differs g.dpad_left want_left
        || differs g.dpad_right want_right in
      record g {
        dpad_up = want_up;
        dpad_down = want_down;
        dpad_left = want_left;
        dpad_right = want_right;
        input = some (if changed then flush d4 else d4);
      }

  -- `process_layer_dpad`. The direction lambdas of the source are those of src/uinput.cpp.
  unfoldable pub process_layer_dpad : GamepadState → Gamepad F → Gamepad F
  process_layer_dpad state g =
      let cfg = get_effective_dpad g in
      let active = is_arrows cfg.mode in
      let in_layer = is_some (get_active_layer g) in
      let suppress =
        if active && cfg.suppress_gamepad && in_layer
        then record g.suppress { dpad = true }
        else g.suppress in
      elim g.input [
        | none ↦ g
        | some d ↦ arrow_keys active state.dpad d (record g { suppress = suppress })
      ]

  -- `suppressed_buttons_ |= btn_mask; suppressed_ext_ |= ext_mask;`
  unfoldable pub suppress_button : String → Gamepad F → Gamepad F
  suppress_button btn g =
      let (btn_mask, ext_mask) = button_to_masks btn in
      record g {
        suppressed_buttons = bit_or g.suppressed_buttons btn_mask;
        suppressed_ext = bit_or g.suppressed_ext ext_mask;
      }

  unfoldable pub inject : RemapTarget → Gamepad F → Gamepad F
  inject target g = record g {
    injected_buttons = bit_or g.injected_buttons target.btn_mask;
    injected_ext = bit_or g.injected_ext target.ext_mask;
  }

  -- What both loops do once a remap applies: `curr` and `old` are the button now and before.
  unfoldable pub apply_target : RemapTarget → RemapType → Bool → Bool → Gamepad F → Gamepad F
  apply_target target disabled curr old g = g
  apply_target target gamepad_button curr old g = if curr then inject target g else g
  apply_target target type curr old g = elim g.input [
    | none ↦ g
    | some d ↦
        if differs curr old then record g { input = some (send_target target type curr d) } else g
  ]

  -- `active_layer != nullptr && active_layer->remap.contains(btn)`
  abbrev pub remapped_by : Option (String × LayerConfig F) → String → Bool
  remapped_by none btn = false
  remapped_by (some (_, layer)) btn = contains btn layer.remap

  -- The body of the loop of `process_base_remaps`.
  unfoldable pub base_remap :
      GamepadState
      → GamepadState
      → Option (String × LayerConfig F)
      → String
      → RemapTarget
      → Gamepad F
      → Gamepad F
  base_remap state prev active btn target g =
      let g' = suppress_button btn g in
      if contains btn g'.tap_hold_states || remapped_by active btn
      then g'
      else apply_target target target.type (is_button_pressed state btn)
          (is_button_pressed prev btn) g'

  unfoldable pub base_remaps :
      GamepadState
      → GamepadState
      → Option (String × LayerConfig F)
      → List (String × RemapTarget)
      → Gamepad F
      → Gamepad F
  base_remaps state prev active [] g = g
  base_remaps state prev active ((btn, target) ∷ rest) g =
      base_remaps state prev active rest (base_remap state prev active btn target g)

  unfoldable pub process_base_remaps : GamepadState → GamepadState → Gamepad F → Gamepad F
  process_base_remaps state prev g =
      if g.config.emulate_elite
      then g
      else base_remaps state prev (get_active_layer g) g.config.button_remaps g

  -- The body of the loop of `process_layer_buttons`.
  unfoldable pub layer_remap :
      GamepadState → GamepadState → String → RemapTarget → Gamepad F → Gamepad F
  layer_remap state prev btn target g =
      apply_target target target.type (is_button_pressed state btn) (is_button_pressed prev btn)
        (suppress_button btn g)

  unfoldable pub layer_remaps :
      GamepadState → GamepadState → List (String × RemapTarget) → Gamepad F → Gamepad F
  layer_remaps state prev [] g = g
  layer_remaps state prev ((btn, target) ∷ rest) g =
      layer_remaps state prev rest (layer_remap state prev btn target g)

  -- `process_layer_buttons` behind its call of `get_active_layer`.
  unfoldable pub layer_buttons :
      Option (String × LayerConfig F) → GamepadState → GamepadState → Gamepad F → Gamepad F
  layer_buttons none state prev g = g
  layer_buttons (some (_, layer)) state prev g = layer_remaps state prev layer.remap g

  unfoldable pub process_layer_buttons : GamepadState → GamepadState → Gamepad F → Gamepad F
  process_layer_buttons state prev g = layer_buttons (get_active_layer g) state prev g

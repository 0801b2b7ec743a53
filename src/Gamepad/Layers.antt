-- ===== src/Gamepad/Layers.antt =====
-- src/gamepad.cpp: `emit_tap` and `update_tap_hold`, the tap-hold and toggle logic of the layers.
pub mod Single
pub mod Idle
pub mod TapHold
pub mod Masks
use flydigi_vader.Base.{
  ℕ, ◌-◌, ◌/◌, Bool, true, false, not, ◌&&◌, ◌||◌, String, ◌is◌, List, [], ◌∷◌, Option, none, some,
  if◌then◌else◌, bit_or, is_some, lookup, contains, insert, erase,
}
use flydigi_vader.Base.Int.{ℤ, pos, leb_ℤ}
use flydigi_vader.Types.{GamepadState}
use flydigi_vader.Config.{
  LayerConfig, RemapTarget, RemapType, Activation, disabled, key, mouse_button, mouse_move,
  gamepad_button, hold, toggle,
}
use flydigi_vader.InputDevice
use flydigi_vader.InputDevice.{InputDevice, flush}
use flydigi_vader.Gamepad.{Gamepad, TapHoldState, is_button_pressed, get_active_layer}

-- Press and release of one key or mouse button, each followed by a `sync`.
unfoldable pub tap_device : RemapTarget → RemapType → InputDevice → InputDevice
tap_device tap key d =
    flush (InputDevice.key tap.code false (flush (InputDevice.key tap.code true d)))
tap_device tap mouse_button d =
    flush (InputDevice.click tap.code false (flush (InputDevice.click tap.code true d)))
tap_device tap disabled d = d
tap_device tap mouse_move d = d
tap_device tap gamepad_button d = d

abbrev pub is_gamepad_button : RemapType → Bool
is_gamepad_button gamepad_button = true
is_gamepad_button _ = false

-- `now - press_time` in whole milliseconds. The steady clock does not run backwards.
abbrev pub elapsed_ms : ℕ → ℕ → ℕ
elapsed_ms now press_time = (now - press_time) / 1_000_000

abbrev pub is_empty {ℓ} : {A : Type ℓ} → List A → Bool
is_empty [] = true
is_empty (x ∷ xs) = false

module _ {F : Type 0} where
  unfoldable pub emit_tap : RemapTarget → Gamepad F → Gamepad F
  emit_tap tap g =
      if is_gamepad_button tap.type
      then record g {
        injected_buttons = bit_or g.injected_buttons tap.btn_mask;
        injected_ext = bit_or g.injected_ext tap.ext_mask;
      }
      else record g {
        input = elim g.input [ none ↦ none | some d ↦ some (tap_device tap tap.type d) ];
      }

  -- `active != nullptr && active != &layer`: the entries of a map are told apart by their keys.
  abbrev pub other_active : Option (String × LayerConfig F) → String → Bool
  other_active none name = false
  other_active (some (n, _)) name = not (n is name)

  -- The branch of a toggle layer.
  unfoldable pub toggle_step :
      Option (String × LayerConfig F) → String → Bool → Gamepad F → Gamepad F
  toggle_step active name released g =
      if released && contains name g.toggled_layers
      then record g { toggled_layers = erase name g.toggled_layers }
      else if released && not (is_some active)
      then record g { tap_hold_states = []; toggled_layers = insert name tt g.toggled_layers }
      else g

  -- `if (!activated && layer.tap) emit_tap(*layer.tap);`
  unfoldable pub tap_if_pending : Option RemapTarget → Bool → Gamepad F → Gamepad F
  tap_if_pending none activated g = g
  tap_if_pending (some tap) activated g = if activated then g else emit_tap tap g

  -- The branch of a hold layer once its entry `st` has been found.
  unfoldable pub held_step :
      String → LayerConfig F → ℕ → Bool → TapHoldState → Gamepad F → Gamepad F
  held_step name layer now released st g =
      if released
      then (let tapped = tap_if_pending layer.tap st.layer_activated g in
          record tapped { tap_hold_states = erase name tapped.tap_hold_states })
      else if not st.layer_activated && not (is_empty g.toggled_layers)
      then record g { tap_hold_states = erase name g.tap_hold_states }
      else if not st.layer_activated
          && leb_ℤ layer.hold_timeout (pos (elapsed_ms now st.press_time))
      then record g {
        tap_hold_states = insert name (record st { layer_activated = true }) g.tap_hold_states;
      }
      else g

  unfoldable pub hold_step :
      Option (String × LayerConfig F)
      → String
      → LayerConfig F
      → ℕ
      → Bool
      → Bool
      → Gamepad F
      → Gamepad F
  hold_step active name layer now pressed released g =
      if pressed && not (is_some active)
      then record g {
        tap_hold_states =
            insert name (record { layer_name = name; press_time = now; layer_activated = false })
              g.tap_hold_states;
      }
      else elim (lookup name g.tap_hold_states) [
        | none ↦ g
        | some st ↦ held_step name layer now released st g
      ]

  -- The body of the loop for one layer.
  unfoldable pub layer_step :
      Option (String × LayerConfig F)
      → GamepadState
      → GamepadState
      → ℕ
      → String
      → LayerConfig F
      → Gamepad F
      → Gamepad F
  layer_step active state prev now name layer g =
      let curr = is_button_pressed state layer.trigger in
      let old = is_button_pressed prev layer.trigger in
      let released = not curr && old in
      let pressed = curr && not old in
      if other_active active name then g else elim layer.activation [
        | toggle ↦ toggle_step active name released g
        | hold ↦ hold_step active name layer now pressed released g
      ]

  unfoldable pub layer_steps :
      Option (String × LayerConfig F)
      → GamepadState
      → GamepadState
      → ℕ
      → List (String × LayerConfig F)
      → Gamepad F
      → Gamepad F
  layer_steps active state prev now [] g = g
  layer_steps active state prev now ((name, layer) ∷ rest) g =
      layer_steps active state prev now rest (layer_step active state prev now name layer g)

  -- `active` is read once, before the loop.
  unfoldable pub update_tap_hold : GamepadState → GamepadState → ℕ → Gamepad F → Gamepad F
  update_tap_hold state prev now g =
      layer_steps (get_active_layer g) state prev now g.config.layers g

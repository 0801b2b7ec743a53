-- ===== src/Gamepad/Poll/Emitted.antt =====
-- src/gamepad.cpp, `poll`: which buttons of the virtual gamepad a report presses.
use flydigi_vader.Base.{
  ℕ, ◌^◌, ◌<◌, ◌≡◌, ap, ◌∙◌, Bool, false, not, ◌&&◌, ◌||◌, String, List, arith, has, bit_or, clear,
  if◌then◌else◌, [],
}
use flydigi_vader.Base.Bits.{has-clear-bit_or, has-zero}
use flydigi_vader.Floats.{Floats}
use flydigi_vader.Types.{GamepadState}
use flydigi_vader.Config.{Config}
use flydigi_vader.Gamepad.{Gamepad, TapHoldState, NameSet, first_on, get_active_layer}
use flydigi_vader.Gamepad.Layers.{update_tap_hold}
use flydigi_vader.Gamepad.Layers.Masks.{layer_steps-suppressed}
use flydigi_vader.Gamepad.Motion.{
  process_gyro, process_mouse_stick, process_scroll_stick, gyro_off, gyro_joystick, gyro_mouse,
  mouse_left, mouse_right, scroll_left, scroll_right, scroll_flush,
}
use flydigi_vader.Gamepad.Remaps.{
  arrow_keys, process_layer_dpad, process_base_remaps, process_layer_buttons,
}
use flydigi_vader.Gamepad.Remaps.Tables.{
  any_entry, names_button, presses_button, base_presses, or_assoc,
}
use flydigi_vader.Gamepad.Remaps.Suppression.{
  entries_of, base_table, layer_table, remaps_suppressed, remaps_injected,
}
use flydigi_vader.Gamepad.Remaps.Width.{remaps_suppressed-lt}
use flydigi_vader.Gamepad.Poll.{begin_report, silence_triggers, handlers, emit_state, masked}

-- What the motion and d-pad handlers leave alone.
pub record Buttons (F : Type 0) : Type 0 where
  pub suppressed_buttons : ℕ
  pub injected_buttons : ℕ
  pub tap_hold_states : List (String × TapHoldState)
  pub toggled_layers : NameSet
  pub config : Config F

abbrev pub buttons_of : {F : Type 0} → Gamepad F → Buttons F
buttons_of g = record {
  suppressed_buttons = g.suppressed_buttons;
  injected_buttons = g.injected_buttons;
  tap_hold_states = g.tap_hold_states;
  toggled_layers = g.toggled_layers;
  config = g.config;
}

regroup :
    (x s n m i p q : Bool)
    → s ≡ false
    → (x && not ((s || n) || m)) || ((i || p) || q) ≡ (x && not (n || m)) || (i || (p || q))
regroup x s n m i p q e = rw e (ap (λ r. (x && not (n || m)) || r) (or_assoc i p q))

module _ {F : Type 0} where
  process_layer_dpad-Buttons :
      (state : GamepadState) (g : Gamepad F)
      → buttons_of (process_layer_dpad state g) ≡ buttons_of g
  unfolding process_layer_dpad arrow_keys
  process_layer_dpad-Buttons state g = ground arith

module _ (fl : Floats) where
  process_gyro-Buttons :
      (state : GamepadState) (g : Gamepad fl.F)
      → buttons_of (process_gyro fl state g) ≡ buttons_of g
  unfolding process_gyro gyro_off gyro_joystick gyro_mouse
  process_gyro-Buttons state g = ground arith

  process_mouse_stick-Buttons :
      (state : GamepadState) (g : Gamepad fl.F)
      → buttons_of (process_mouse_stick fl state g) ≡ buttons_of g
  unfolding process_mouse_stick mouse_left mouse_right
  process_mouse_stick-Buttons state g = ground arith

  process_scroll_stick-Buttons :
      (state : GamepadState) (g : Gamepad fl.F)
      → buttons_of (process_scroll_stick fl state g) ≡ buttons_of g
  unfolding process_scroll_stick scroll_left scroll_right scroll_flush
  process_scroll_stick-Buttons state g = ground arith

  -- The state behind the layer logic, and the one that the remap loops start from.
  abbrev pub layered : GamepadState → ℕ → Gamepad fl.F → Gamepad fl.F
  layered state now g = update_tap_hold state g.prev_state now (begin_report g)

  abbrev pub moved : GamepadState → ℕ → Gamepad fl.F → Gamepad fl.F
  moved state now g = process_layer_dpad state (
      process_scroll_stick fl state
        (process_mouse_stick fl state (process_gyro fl state (layered state now g))))

  moved-Buttons :
      (state : GamepadState) (now : ℕ) (g : Gamepad fl.F)
      → buttons_of (moved state now g) ≡ buttons_of (layered state now g)
  moved-Buttons state now g = simp (
    process_layer_dpad-Buttons, process_scroll_stick-Buttons, process_mouse_stick-Buttons,
    process_gyro-Buttons,
  )

  layered_unsuppressed :
      (state : GamepadState) (now : ℕ) (g : Gamepad fl.F)
      → (layered state now g).suppressed_buttons ≡ 0
  unfolding update_tap_hold begin_report
  layered_unsuppressed state now g =
      layer_steps-suppressed (get_active_layer (begin_report g)) state g.prev_state now
        g.config.layers (begin_report g)

  -- The button word that is emitted comes from the remap loops' masks alone.
  emit_state-buttons :
      (state : GamepadState) (g : Gamepad fl.F)
      → (emit_state state (silence_triggers g)).buttons
        ≡ bit_or (clear 16 state.buttons g.suppressed_buttons) g.injected_buttons
  unfolding emit_state masked silence_triggers
  emit_state-buttons state g = ground arith

  -- The entries that apply to a report: those of the base table, which the emulated Elite pad does
  -- without, and those of the active layer.
  abbrev pub blocked : Gamepad fl.F → ℕ → Bool
  blocked l k =
      any_entry (names_button k) (base_table l) || any_entry (names_button k) (layer_table l)

  abbrev pub pressed_by_remap : Gamepad fl.F → GamepadState → ℕ → Bool
  pressed_by_remap l state k =
      any_entry (base_presses l.tap_hold_states (get_active_layer l) state k) (base_table l)
      || any_entry (presses_button state k) (layer_table l)

  -- The same over the fields that the two loops read.
  abbrev bit_out : GamepadState → ℕ → Buttons fl.F → Bool
  bit_out state k b =
      let active = first_on b.tap_hold_states b.toggled_layers b.config.layers in
      let table = if b.config.emulate_elite then [] else b.config.button_remaps in
      (has state.buttons (2 ^ k)
        && not (
            (has b.suppressed_buttons (2 ^ k) || any_entry (names_button k) table)
            || any_entry (names_button k) (entries_of active)))
      || ((has b.injected_buttons (2 ^ k)
            || any_entry (base_presses b.tap_hold_states active state k) table)
          || any_entry (presses_button state k) (entries_of active))

  bit_out_unsuppressed :
      (state : GamepadState) (k : ℕ) (b : Buttons fl.F)
      → b.suppressed_buttons ≡ 0
      → let active = first_on b.tap_hold_states b.toggled_layers b.config.layers in
        let table = if b.config.emulate_elite then [] else b.config.button_remaps in
        bit_out state k b
        ≡ (has state.buttons (2 ^ k)
            && not (
                any_entry (names_button k) table || any_entry (names_button k) (entries_of active)))
          || (has b.injected_buttons (2 ^ k)
              || (any_entry (base_presses b.tap_hold_states active state k) table
                  || any_entry (presses_button state k) (entries_of active)))
  bit_out_unsuppressed state k b e =
      let active = first_on b.tap_hold_states b.toggled_layers b.config.layers in
      let table = if b.config.emulate_elite then [] else b.config.button_remaps in
      regroup (has state.buttons (2 ^ k)) (has b.suppressed_buttons (2 ^ k))
        (any_entry (names_button k) table) (any_entry (names_button k) (entries_of active))
        (has b.injected_buttons (2 ^ k))
        (any_entry (base_presses b.tap_hold_states active state k) table)
        (any_entry (presses_button state k) (entries_of active))
        (ap (λ x. has x (2 ^ k)) e ∙ has-zero (2 ^ k))

  remapped_bit :
      (state : GamepadState) (prev : GamepadState) (m : Gamepad fl.F) (k : ℕ)
      → k < 16
      → m.suppressed_buttons < 2 ^ 16
      → let r = process_layer_buttons state prev (process_base_remaps state prev m) in
        has (bit_or (clear 16 state.buttons r.suppressed_buttons) r.injected_buttons) (2 ^ k)
        ≡ bit_out state k (buttons_of m)
  unfolding get_active_layer
  remapped_bit state prev m k hk hm =
      has-clear-bit_or 16 k state.buttons _ _ hk (remaps_suppressed-lt state prev m hm)
      ∙ rw (remaps_suppressed state prev m k, remaps_injected state prev m k)

  -- A bit of the 16-bit button word of the virtual gamepad is set behind a report exactly when it
  -- is set on the controller and no remap entry names it, or when the layer logic has tapped it,
  -- or when an entry has it as the target of a pressed button. The entries are those of the active
  -- layer and, unless the Elite pad is emulated, those of the base table, also for the trigger of
  -- a layer; as a source of presses a base entry is passed over where the active layer remaps its
  -- button or a pending hold has the button's name as its key.
  pub emitted_button :
      (state : GamepadState) (now : ℕ) (g : Gamepad fl.F) (k : ℕ)
      → k < 16
      → let l = layered state now g in
        has (emit_state state (handlers fl state now g)).buttons (2 ^ k)
        ≡ (has state.buttons (2 ^ k) && not (blocked l k))
          || (has l.injected_buttons (2 ^ k) || pressed_by_remap l state k)
  unfolding handlers get_active_layer
  emitted_button state now g k hk =
      let m = moved state now g in
      let same = moved-Buttons state now g in
      let clean : m.suppressed_buttons ≡ 0 =
        ap (λ (b : Buttons fl.F). b.suppressed_buttons) same ∙ layered_unsuppressed state now g in
      ap (λ x. has x (2 ^ k))
        (emit_state-buttons state
          (process_layer_buttons state g.prev_state (process_base_remaps state g.prev_state m)))
      ∙ remapped_bit state g.prev_state m k hk (rw clean (omega arith))
      ∙ ap (bit_out state k) same
      ∙ bit_out_unsuppressed state k (buttons_of (layered state now g))
          (layered_unsuppressed state now g)

-- ===== src/Gamepad/Remaps/Suppression.antt =====
-- src/gamepad.cpp: which buttons the two remap loops together suppress and inject, bit by bit.
use flydigi_vader.Base.{
  ℕ, ◌^◌, ◌≡◌, refl, sym, ap, ◌∙◌, ◌||◌, String, List, [], Option, none, some, arith, if◌then◌else◌,
  has,
}
use flydigi_vader.Types.{GamepadState}
use flydigi_vader.Config.{Config, LayerConfig, RemapTarget}
use flydigi_vader.Gamepad.{Gamepad, get_active_layer}
use flydigi_vader.Gamepad.Remaps.{process_base_remaps, layer_buttons, process_layer_buttons}
use flydigi_vader.Gamepad.Remaps.Tables.{
  or_false, any_entry, names_button, presses_button, base_presses, layer_remaps-suppressed,
  layer_remaps-injected,
}
use flydigi_vader.Gamepad.Remaps.BaseTable.{
  SameLayers, base_remaps-SameLayers, base_remaps-suppressed, base_remaps-injected,
}

module _ {F : Type 0} where
  -- What the two loops take from the virtual gamepad, and what they press on it.
  abbrev pub base_table : Gamepad F → List (String × RemapTarget)
  base_table g = if g.config.emulate_elite then [] else g.config.button_remaps

  pub entries_of : Option (String × LayerConfig F) → List (String × RemapTarget)
  entries_of none = []
  entries_of (some (_, layer)) = layer.remap

  abbrev pub layer_table : Gamepad F → List (String × RemapTarget)
  layer_table g = entries_of (get_active_layer g)

  process_base_remaps-SameLayers :
      (state prev : GamepadState) (g : Gamepad F) → SameLayers g (process_base_remaps state prev g)
  unfolding process_base_remaps
  process_base_remaps-SameLayers state prev g =
      ground
        (arith, base_remaps-SameLayers state prev (get_active_layer g) g.config.button_remaps g)

  process_base_remaps-active :
      (state prev : GamepadState) (g : Gamepad F)
      → get_active_layer (process_base_remaps state prev g) ≡ get_active_layer g
  unfolding get_active_layer
  process_base_remaps-active state prev g =
      let same = process_base_remaps-SameLayers state prev g in
      cc (same.held, same.toggled, ap (λ (c : Config F). c.layers) same.config)

  process_base_remaps-suppressed :
      (state prev : GamepadState) (g : Gamepad F) (k : ℕ)
      → has (process_base_remaps state prev g).suppressed_buttons (2 ^ k)
        ≡ has g.suppressed_buttons (2 ^ k) || any_entry (names_button k) (base_table g)
  unfolding process_base_remaps any_entry
  process_base_remaps-suppressed state prev g k =
      ground
        (arith, base_remaps-suppressed state prev (get_active_layer g) g.config.button_remaps g k)

  process_base_remaps-injected :
      (state prev : GamepadState) (g : Gamepad F) (k : ℕ)
      → has (process_base_remaps state prev g).injected_buttons (2 ^ k)
        ≡ has g.injected_buttons (2 ^ k)
          || any_entry (base_presses g.tap_hold_states (get_active_layer g) state k) (base_table g)
  unfolding process_base_remaps any_entry
  process_base_remaps-injected state prev g k = ground (
    arith,
    base_remaps-injected state prev (get_active_layer g) g.tap_hold_states g.config.button_remaps g
        k refl,
  )

  layer_buttons-suppressed :
      (active : Option (String × LayerConfig F)) (state prev : GamepadState) (g : Gamepad F) (k : ℕ)
      → has (layer_buttons active state prev g).suppressed_buttons (2 ^ k)
        ≡ has g.suppressed_buttons (2 ^ k) || any_entry (names_button k) (entries_of active)
  unfolding layer_buttons any_entry entries_of
  layer_buttons-suppressed none state prev g k = sym (or_false (has g.suppressed_buttons (2 ^ k)))
  layer_buttons-suppressed (some (_, layer)) state prev g k =
      layer_remaps-suppressed state prev layer.remap g k

  layer_buttons-injected :
      (active : Option (String × LayerConfig F)) (state prev : GamepadState) (g : Gamepad F) (k : ℕ)
      → has (layer_buttons active state prev g).injected_buttons (2 ^ k)
        ≡ has g.injected_buttons (2 ^ k) || any_entry (presses_button state k) (entries_of active)
  unfolding layer_buttons any_entry entries_of
  layer_buttons-injected none state prev g k = sym (or_false (has g.injected_buttons (2 ^ k)))
  layer_buttons-injected (some (_, layer)) state prev g k =
      layer_remaps-injected state prev layer.remap g k

  -- The two loops together, as `poll` runs them. A bit of the button word is suppressed exactly
  -- when it was before, or a base entry (unless the Elite pad is emulated) or an entry of the
  -- active layer names that button, whatever the entry's target is, and also where the button is
  -- the trigger of a layer.
  pub remaps_suppressed :
      (state prev : GamepadState) (g : Gamepad F) (k : ℕ)
      → has
          (process_layer_buttons state prev (process_base_remaps state prev g)).suppressed_buttons
          (2 ^ k)
        ≡ (has g.suppressed_buttons (2 ^ k) || any_entry (names_button k) (base_table g))
          || any_entry (names_button k) (layer_table g)
  unfolding process_layer_buttons
  remaps_suppressed state prev g k = rw (process_base_remaps-active state prev g) (
      layer_buttons-suppressed (get_active_layer g) state prev (process_base_remaps state prev g) k
      ∙ ap (λ b. b || any_entry (names_button k) (layer_table g))
          (process_base_remaps-suppressed state prev g k))

  -- A bit of the button word is injected exactly when it was before, or a pressed button has an
  -- entry with that gamepad button as its target: in the active layer, or in the base table for a
  -- button that neither the layer remaps nor is, as a name, the key of a pending hold. A base
  -- entry for the trigger of a layer is no exception.
  pub remaps_injected :
      (state prev : GamepadState) (g : Gamepad F) (k : ℕ)
      → has
          (process_layer_buttons state prev (process_base_remaps state prev g)).injected_buttons
          (2 ^ k)
        ≡ (has g.injected_buttons (2 ^ k)
            || any_entry
                (base_presses g.tap_hold_states (get_active_layer g) state k)
                (base_table g))
          || any_entry (presses_button state k) (layer_table g)
  unfolding process_layer_buttons
  remaps_injected state prev g k = rw (process_base_remaps-active state prev g) (
      layer_buttons-injected (get_active_layer g) state prev (process_base_remaps state prev g) k
      ∙ ap (λ b. b || any_entry (presses_button state k) (layer_table g))
          (process_base_remaps-injected state prev g k))

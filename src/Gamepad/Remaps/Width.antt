-- ===== src/Gamepad/Remaps/Width.antt =====
-- src/gamepad.cpp, the remap loops: `suppressed_buttons_` stays a 16-bit word.
use flydigi_vader.Base.{◌^◌, ◌<◌, String, List, [], ◌∷◌, Option, none, some, arith}
use flydigi_vader.Base.Bits.{bit_or-bounds}
use flydigi_vader.Types.{GamepadState}
use flydigi_vader.Types.Masks.{button_to_masks}
use flydigi_vader.Config.{LayerConfig, RemapTarget}
use flydigi_vader.Gamepad.{Gamepad, is_button_pressed, get_active_layer}
use flydigi_vader.Gamepad.Remaps.{
  suppress_button, base_remap, base_remaps, process_base_remaps, layer_remap, layer_remaps,
  layer_buttons, process_layer_buttons,
}
use flydigi_vader.Gamepad.Remaps.Tables.{apply_target-suppressed}
use flydigi_vader.Types.Masks.Fits.{button_to_masks-Fits}

module _ {F : Type 0} where
  -- The suppressed word stays a 16-bit word.
  layer_remap-lt :
      (state prev : GamepadState) (btn : String) (target : RemapTarget) (g : Gamepad F)
      → g.suppressed_buttons < 2 ^ 16
      → (layer_remap state prev btn target g).suppressed_buttons < 2 ^ 16
  unfolding layer_remap suppress_button
  layer_remap-lt state prev btn target g h =
      rw
        (apply_target-suppressed target target.type (is_button_pressed state btn)
          (is_button_pressed prev btn) (suppress_button btn g))
        (bit_or-bounds 16 _ _ h (button_to_masks-Fits btn).buttons)

  layer_remaps-lt :
      (state prev : GamepadState) (remaps : List (String × RemapTarget)) (g : Gamepad F)
      → g.suppressed_buttons < 2 ^ 16
      → (layer_remaps state prev remaps g).suppressed_buttons < 2 ^ 16
  unfolding layer_remaps
  layer_remaps-lt state prev [] g h = h
  layer_remaps-lt state prev ((btn, target) ∷ rest) g h =
      layer_remaps-lt state prev rest _ (layer_remap-lt state prev btn target g h)

  base_remap-lt :
      (state prev : GamepadState) (active : Option (String × LayerConfig F)) (btn : String)
      (target : RemapTarget) (g : Gamepad F)
      → g.suppressed_buttons < 2 ^ 16
      → (base_remap state prev active btn target g).suppressed_buttons < 2 ^ 16
  unfolding base_remap suppress_button
  base_remap-lt state prev active btn target g h = ground (
    arith,
    bit_or-bounds 16 g.suppressed_buttons (button_to_masks btn).0 h
        (button_to_masks-Fits btn).buttons,
    apply_target-suppressed target target.type (is_button_pressed state btn)
        (is_button_pressed prev btn) (suppress_button btn g),
  )

  base_remaps-lt :
      (state prev : GamepadState) (active : Option (String × LayerConfig F))
      (remaps : List (String × RemapTarget)) (g : Gamepad F)
      → g.suppressed_buttons < 2 ^ 16
      → (base_remaps state prev active remaps g).suppressed_buttons < 2 ^ 16
  unfolding base_remaps
  base_remaps-lt state prev active [] g h = h
  base_remaps-lt state prev active ((btn, target) ∷ rest) g h =
      base_remaps-lt state prev active rest _ (base_remap-lt state prev active btn target g h)

  layer_buttons-lt :
      (active : Option (String × LayerConfig F)) (state prev : GamepadState) (g : Gamepad F)
      → g.suppressed_buttons < 2 ^ 16
      → (layer_buttons active state prev g).suppressed_buttons < 2 ^ 16
  unfolding layer_buttons
  layer_buttons-lt none state prev g h = h
  layer_buttons-lt (some (_, layer)) state prev g h = layer_remaps-lt state prev layer.remap g h

  pub remaps_suppressed-lt :
      (state prev : GamepadState) (g : Gamepad F)
      → g.suppressed_buttons < 2 ^ 16
      → (process_layer_buttons state prev (process_base_remaps state prev g)).suppressed_buttons
        < 2 ^ 16
  unfolding process_layer_buttons process_base_remaps
  remaps_suppressed-lt state prev g h =
      layer_buttons-lt _ state prev _
        (ground (arith, base_remaps-lt state prev (get_active_layer g) g.config.button_remaps g h))

-- ===== src/Gamepad/Remaps/Tables.antt =====
-- src/gamepad.cpp, the remap tables entry by entry, and the loop over the active layer's.
use flydigi_vader.Base.{
  ℕ, ◌^◌, ◌≡◌, refl, sym, ap, ◌∙◌, Bool, true, false, not, ◌&&◌, ◌||◌, String, List, [], ◌∷◌,
  Option, arith, has, contains,
}
use flydigi_vader.Base.Bits.{has-bit_or}
use flydigi_vader.Types.{GamepadState}
use flydigi_vader.Types.Masks.{button_to_masks}
use flydigi_vader.Config.{LayerConfig, RemapTarget, RemapType}
use flydigi_vader.Gamepad.{Gamepad, TapHoldState, is_button_pressed}
use flydigi_vader.Gamepad.Layers.{is_gamepad_button}
use flydigi_vader.Gamepad.Remaps.{
  suppress_button, inject, apply_target, remapped_by, layer_remap, layer_remaps,
}

pub or_false : (b : Bool) → (b || false) ≡ b
or_false true = refl
or_false false = refl

pub or_assoc : (a b c : Bool) → ((a || b) || c) ≡ (a || (b || c))
or_assoc true b c = refl
or_assoc false b c = refl

-- Some entry of a remap table satisfies the test.
unfoldable pub any_entry : (String → RemapTarget → Bool) → List (String × RemapTarget) → Bool
any_entry test [] = false
any_entry test ((btn, target) ∷ rest) = test btn target || any_entry test rest

-- The button is named by the entry, so it is taken from the virtual gamepad.
abbrev pub names_button : ℕ → String → RemapTarget → Bool
names_button k btn target = has (button_to_masks btn).0 (2 ^ k)

-- The entry turns a pressed button into that button of the virtual gamepad.
abbrev pub presses_button : GamepadState → ℕ → String → RemapTarget → Bool
presses_button state k btn target =
    (is_gamepad_button target.type && is_button_pressed state btn) && has target.btn_mask (2 ^ k)

-- A base entry is passed over for a button that names a pending layer, or that the layer remaps.
abbrev pub base_presses :
    {F : Type 0}
    → List (String × TapHoldState)
    → Option (String × LayerConfig F)
    → GamepadState
    → ℕ
    → String
    → RemapTarget
    → Bool
base_presses held active state k btn target =
    not (contains btn held || remapped_by active btn) && presses_button state k btn target

module _ {F : Type 0} where
  pub apply_target-suppressed :
      (target : RemapTarget) (type : RemapType) (curr old : Bool) (g : Gamepad F)
      → (apply_target target type curr old g).suppressed_buttons ≡ g.suppressed_buttons
  unfolding apply_target inject
  apply_target-suppressed target type curr old g = ground arith

  pub apply_target-injected :
      (target : RemapTarget) (type : RemapType) (curr old : Bool) (g : Gamepad F) (k : ℕ)
      → has (apply_target target type curr old g).injected_buttons (2 ^ k)
        ≡ has g.injected_buttons (2 ^ k)
          || ((is_gamepad_button type && curr) && has target.btn_mask (2 ^ k))
  unfolding apply_target inject
  apply_target-injected target type curr old g k =
      ground (arith, has-bit_or k g.injected_buttons target.btn_mask)

  pub layer_remap-suppressed :
      (state prev : GamepadState) (btn : String) (target : RemapTarget) (g : Gamepad F) (k : ℕ)
      → has (layer_remap state prev btn target g).suppressed_buttons (2 ^ k)
        ≡ has g.suppressed_buttons (2 ^ k) || names_button k btn target
  unfolding layer_remap suppress_button
  layer_remap-suppressed state prev btn target g k =
      ap (λ x. has x (2 ^ k))
        (apply_target-suppressed target target.type (is_button_pressed state btn)
          (is_button_pressed prev btn) (suppress_button btn g))
      ∙ has-bit_or k g.suppressed_buttons (button_to_masks btn).0

  pub layer_remaps-suppressed :
      (state prev : GamepadState) (remaps : List (String × RemapTarget)) (g : Gamepad F) (k : ℕ)
      → has (layer_remaps state prev remaps g).suppressed_buttons (2 ^ k)
        ≡ has g.suppressed_buttons (2 ^ k) || any_entry (names_button k) remaps
  unfolding layer_remaps any_entry
  layer_remaps-suppressed state prev [] g k = sym (or_false (has g.suppressed_buttons (2 ^ k)))
  layer_remaps-suppressed state prev ((btn, target) ∷ rest) g k =
      layer_remaps-suppressed state prev rest (layer_remap state prev btn target g) k
      ∙ ap (λ b. b || any_entry (names_button k) rest)
          (layer_remap-suppressed state prev btn target g k)
      ∙ or_assoc (has g.suppressed_buttons (2 ^ k)) _ _

  pub layer_remap-injected :
      (state prev : GamepadState) (btn : String) (target : RemapTarget) (g : Gamepad F) (k : ℕ)
      → has (layer_remap state prev btn target g).injected_buttons (2 ^ k)
        ≡ has g.injected_buttons (2 ^ k) || presses_button state k btn target
  unfolding layer_remap suppress_button
  layer_remap-injected state prev btn target g k =
      apply_target-injected target target.type (is_button_pressed state btn)
        (is_button_pressed prev btn) (suppress_button btn g) k

  pub layer_remaps-injected :
      (state prev : GamepadState) (remaps : List (String × RemapTarget)) (g : Gamepad F) (k : ℕ)
      → has (layer_remaps state prev remaps g).injected_buttons (2 ^ k)
        ≡ has g.injected_buttons (2 ^ k) || any_entry (presses_button state k) remaps
  unfolding layer_remaps any_entry
  layer_remaps-injected state prev [] g k = sym (or_false (has g.injected_buttons (2 ^ k)))
  layer_remaps-injected state prev ((btn, target) ∷ rest) g k =
      layer_remaps-injected state prev rest (layer_remap state prev btn target g) k
      ∙ ap (λ b. b || any_entry (presses_button state k) rest)
          (layer_remap-injected state prev btn target g k)
      ∙ or_assoc (has g.injected_buttons (2 ^ k)) _ _

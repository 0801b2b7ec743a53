-- ===== src/Gamepad/Remaps/BaseTable.antt =====
-- src/gamepad.cpp, the loop over the base remaps, bit by bit.
use flydigi_vader.Base.{
  ℕ, ◌^◌, ◌≡◌, refl, sym, ap, ◌∙◌, ◌||◌, String, List, [], ◌∷◌, Option, arith, inl, inr, Bool-cases,
  has, contains,
}
use flydigi_vader.Base.Bits.{has-bit_or}
use flydigi_vader.Types.{GamepadState}
use flydigi_vader.Types.Masks.{button_to_masks}
use flydigi_vader.Config.{LayerConfig, RemapTarget}
use flydigi_vader.Gamepad.{Gamepad, TapHoldState, is_button_pressed}
use flydigi_vader.Gamepad.Remaps.{
  suppress_button, inject, apply_target, remapped_by, base_remap, base_remaps,
}
use flydigi_vader.Gamepad.Remaps.Tables.{
  or_false, or_assoc, any_entry, names_button, base_presses, apply_target-suppressed,
  apply_target-injected,
}

module _ {F : Type 0} where
  pub base_remap-suppressed :
      (state prev : GamepadState) (active : Option (String × LayerConfig F)) (btn : String)
      (target : RemapTarget) (g : Gamepad F) (k : ℕ)
      → has (base_remap state prev active btn target g).suppressed_buttons (2 ^ k)
        ≡ has g.suppressed_buttons (2 ^ k) || names_button k btn target
  unfolding base_remap suppress_button
  base_remap-suppressed state prev active btn target g k =
      ap (λ x. has x (2 ^ k)) kept ∙ has-bit_or k g.suppressed_buttons (button_to_masks btn).0
    where
      kept :
          (base_remap state prev active btn target g).suppressed_buttons
          ≡ (suppress_button btn g).suppressed_buttons
      kept = ground (
        arith,
        apply_target-suppressed target target.type (is_button_pressed state btn)
            (is_button_pressed prev btn) (suppress_button btn g),
      )

  pub base_remap-injected :
      (state prev : GamepadState) (active : Option (String × LayerConfig F)) (btn : String)
      (target : RemapTarget) (g : Gamepad F) (k : ℕ)
      → has (base_remap state prev active btn target g).injected_buttons (2 ^ k)
        ≡ has g.injected_buttons (2 ^ k) || base_presses g.tap_hold_states active state k btn target
  unfolding base_remap suppress_button
  base_remap-injected state prev active btn target g k =
      elim (Bool-cases (contains btn g.tap_hold_states || remapped_by active btn)) [
        | inl over ↦ rw (over, base_remap) (sym (or_false (has g.injected_buttons (2 ^ k))))
        | inr on ↦
            rw (on, base_remap)
              (apply_target-injected target target.type (is_button_pressed state btn)
                (is_button_pressed prev btn) (suppress_button btn g) k)
      ]

  -- What the loop over the base table leaves as it was.
  pub record SameLayers (g h : Gamepad F) : Type 0 where
    pub held : h.tap_hold_states ≡ g.tap_hold_states
    pub toggled : h.toggled_layers ≡ g.toggled_layers
    pub config : h.config ≡ g.config

  pub base_remap-SameLayers :
      (state prev : GamepadState) (active : Option (String × LayerConfig F)) (btn : String)
      (target : RemapTarget) (g : Gamepad F)
      → SameLayers g (base_remap state prev active btn target g)
  unfolding base_remap suppress_button apply_target inject
  base_remap-SameLayers state prev active btn target g = ground arith

  pub base_remaps-SameLayers :
      (state prev : GamepadState) (active : Option (String × LayerConfig F))
      (remaps : List (String × RemapTarget)) (g : Gamepad F)
      → SameLayers g (base_remaps state prev active remaps g)
  unfolding base_remaps
  base_remaps-SameLayers state prev active [] g = record {
    held = refl;
    toggled = refl;
    config = refl;
  }
  base_remaps-SameLayers state prev active ((btn, target) ∷ rest) g =
      let first = base_remap-SameLayers state prev active btn target g in
      let later =
        base_remaps-SameLayers state prev active rest (base_remap state prev active btn target g) in
      record {
        held = later.held ∙ first.held;
        toggled = later.toggled ∙ first.toggled;
        config = later.config ∙ first.config;
      }

  pub base_remaps-suppressed :
      (state prev : GamepadState) (active : Option (String × LayerConfig F))
      (remaps : List (String × RemapTarget)) (g : Gamepad F) (k : ℕ)
      → has (base_remaps state prev active remaps g).suppressed_buttons (2 ^ k)
        ≡ has g.suppressed_buttons (2 ^ k) || any_entry (names_button k) remaps
  unfolding base_remaps any_entry
  base_remaps-suppressed state prev active [] g k =
      sym (or_false (has g.suppressed_buttons (2 ^ k)))
  base_remaps-suppressed state prev active ((btn, target) ∷ rest) g k =
      base_remaps-suppressed state prev active rest (base_remap state prev active btn target g) k
      ∙ ap (λ b. b || any_entry (names_button k) rest)
          (base_remap-suppressed state prev active btn target g k)
      ∙ or_assoc (has g.suppressed_buttons (2 ^ k)) _ _

  pub base_remaps-injected :
      (state prev : GamepadState) (active : Option (String × LayerConfig F))
      (held : List (String × TapHoldState)) (remaps : List (String × RemapTarget)) (g : Gamepad F)
      (k : ℕ)
      → g.tap_hold_states ≡ held
      → has (base_remaps state prev active remaps g).injected_buttons (2 ^ k)
        ≡ has g.injected_buttons (2 ^ k) || any_entry (base_presses held active state k) remaps
  unfolding base_remaps any_entry
  base_remaps-injected state prev active held [] g k e =
      sym (or_false (has g.injected_buttons (2 ^ k)))
  base_remaps-injected state prev active held ((btn, target) ∷ rest) g k e =
      let next = base_remap state prev active btn target g in
      base_remaps-injected state prev active held rest next k
        ((base_remap-SameLayers state prev active btn target g).held ∙ e)
      ∙ ap (λ b. b || any_entry (base_presses held active state k) rest)
          (base_remap-injected state prev active btn target g k
            ∙ ap (λ h. has g.injected_buttons (2 ^ k) || base_presses h active state k btn target)
                e)
      ∙ or_assoc (has g.injected_buttons (2 ^ k)) _ _

-- ===== src/Gamepad/Layers/Masks.antt =====
-- src/gamepad.cpp, `update_tap_hold`: it suppresses no button by itself.
use flydigi_vader.Base.{
  ℕ, ◌≡◌, refl, ◌∙◌, Bool, not, ◌&&◌, String, List, [], ◌∷◌, Option, arith, inl, inr, Option-cases,
  lookup,
}
use flydigi_vader.Types.{GamepadState}
use flydigi_vader.Config.{LayerConfig, RemapTarget}
use flydigi_vader.Gamepad.{Gamepad, TapHoldState, is_button_pressed}
use flydigi_vader.Gamepad.Layers.{
  emit_tap, tap_if_pending, held_step, hold_step, toggle_step, layer_step, layer_steps,
}

module _ {F : Type 0} where
  tap_if_pending-suppressed :
      (tap : Option RemapTarget) (b : Bool) (g : Gamepad F)
      → (tap_if_pending tap b g).suppressed_buttons ≡ g.suppressed_buttons
  unfolding tap_if_pending emit_tap
  tap_if_pending-suppressed tap b g = ground arith

  held_step-suppressed :
      (name : String) (layer : LayerConfig F) (now : ℕ) (released : Bool) (st : TapHoldState)
      (g : Gamepad F)
      → (held_step name layer now released st g).suppressed_buttons ≡ g.suppressed_buttons
  unfolding held_step
  held_step-suppressed name layer now released st g =
      ground (arith, tap_if_pending-suppressed layer.tap st.layer_activated g)

  hold_step-suppressed :
      (active : Option (String × LayerConfig F)) (name : String) (layer : LayerConfig F) (now : ℕ)
      (pressed released : Bool) (g : Gamepad F)
      → (hold_step active name layer now pressed released g).suppressed_buttons
        ≡ g.suppressed_buttons
  unfolding hold_step
  hold_step-suppressed active name layer now pressed released g =
      elim (Option-cases (lookup name g.tap_hold_states)) [
        | inl e ↦ ground arith
        | inr (st, e) ↦ ground (arith, held_step-suppressed name layer now released st g)
      ]

  layer_step-suppressed :
      (active : Option (String × LayerConfig F)) (state prev : GamepadState) (now : ℕ)
      (name : String) (layer : LayerConfig F) (g : Gamepad F)
      → (layer_step active state prev now name layer g).suppressed_buttons ≡ g.suppressed_buttons
  unfolding layer_step toggle_step
  layer_step-suppressed active state prev now name layer g =
      let curr = is_button_pressed state layer.trigger in
      let old = is_button_pressed prev layer.trigger in
      ground
        (arith, hold_step-suppressed active name layer now (curr && not old) (not curr && old) g)

  pub layer_steps-suppressed :
      (active : Option (String × LayerConfig F)) (state prev : GamepadState) (now : ℕ)
      (layers : List (String × LayerConfig F)) (g : Gamepad F)
      → (layer_steps active state prev now layers g).suppressed_buttons ≡ g.suppressed_buttons
  unfolding layer_steps
  layer_steps-suppressed active state prev now [] g = refl
  layer_steps-suppressed active state prev now ((name, layer) ∷ rest) g =
      layer_steps-suppressed active state prev now rest
        (layer_step active state prev now name layer g)
      ∙ layer_step-suppressed active state prev now name layer g

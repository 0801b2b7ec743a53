-- ===== src/Gamepad/Layers/Single.antt =====
-- src/gamepad.cpp, `update_tap_hold`: while one layer is active, the others wait.
use flydigi_vader.Base.{
  ℕ, ◌≡◌, refl, ap, ◌∙◌, Bool, true, false, not, ◌&&◌, String, ◌is◌, is_iff, is_some, List, [], ◌∷◌,
  Option, some, arith, inl, inr, Option-cases, lookup, lookup-insert, lookup-erase,
}
use flydigi_vader.Types.{GamepadState}
use flydigi_vader.Config.{LayerConfig, RemapTarget}
use flydigi_vader.Gamepad.{Gamepad, TapHoldState, is_button_pressed, get_active_layer}
use flydigi_vader.Gamepad.Layers.{
  emit_tap, tap_if_pending, held_step, hold_step, toggle_step, layer_step, layer_steps,
  update_tap_hold,
}

-- What the state keeps about one layer: its pending or activated entry, and whether it is toggled on.
pub record Kept : Type 0 where
  pub held : Option TapHoldState
  pub toggled : Bool

abbrev pub kept : {F : Type 0} → String → Gamepad F → Kept
kept n g = record {
  held = lookup n g.tap_hold_states;
  toggled = is_some (lookup n g.toggled_layers);
}

module _ {F : Type 0} (n : String) where
  tap_if_pending-kept :
      (tap : Option RemapTarget) (b : Bool) (g : Gamepad F)
      → kept n (tap_if_pending tap b g) ≡ kept n g
  unfolding tap_if_pending emit_tap
  tap_if_pending-kept tap b g = ground arith

  tap_if_pending-states :
      (tap : Option RemapTarget) (b : Bool) (g : Gamepad F)
      → (tap_if_pending tap b g).tap_hold_states ≡ g.tap_hold_states
  unfolding tap_if_pending emit_tap
  tap_if_pending-states tap b g = ground arith

  tap_if_pending-toggled :
      (tap : Option RemapTarget) (b : Bool) (g : Gamepad F)
      → (tap_if_pending tap b g).toggled_layers ≡ g.toggled_layers
  unfolding tap_if_pending emit_tap
  tap_if_pending-toggled tap b g = ground arith

  held_step-kept :
      (name : String) (layer : LayerConfig F) (now : ℕ) (released : Bool) (st : TapHoldState)
      (g : Gamepad F)
      → name is n ≡ false
      → kept n (held_step name layer now released st g) ≡ kept n g
  unfolding held_step
  held_step-kept name layer now released st g e = ground (
    arith,
    lookup-erase name n g.tap_hold_states,
    lookup-insert name n (record st { layer_activated = true }) g.tap_hold_states,
    tap_if_pending-states layer.tap st.layer_activated g,
    tap_if_pending-toggled layer.tap st.layer_activated g,
  )

  hold_step-kept :
      (active : String × LayerConfig F) (name : String) (layer : LayerConfig F) (now : ℕ)
      (pressed released : Bool) (g : Gamepad F)
      → name is n ≡ false
      → kept n (hold_step (some active) name layer now pressed released g) ≡ kept n g
  unfolding hold_step
  hold_step-kept active name layer now pressed released g e =
      elim (Option-cases (lookup name g.tap_hold_states)) [
        | inl e ↦ ground arith
        | inr (st, f) ↦ ground (arith, held_step-kept name layer now released st g e)
      ]

  layer_step-kept :
      (a : String) (layer_a : LayerConfig F) (state prev : GamepadState) (now : ℕ) (name : String)
      (layer : LayerConfig F) (g : Gamepad F)
      → a is n ≡ false
      → kept n (layer_step (some (a, layer_a)) state prev now name layer g) ≡ kept n g
  unfolding layer_step toggle_step
  layer_step-kept a layer_a state prev now name layer g e =
      let curr = is_button_pressed state layer.trigger in
      let old = is_button_pressed prev layer.trigger in
      ground (
        arith,
        is_iff a name,
        is_iff a n,
        is_iff name n,
        lookup-erase name n g.toggled_layers,
        hold_step-kept (a, layer_a) name layer now (curr && not old) (not curr && old) g,
      )

  layer_steps-kept :
      (a : String) (layer_a : LayerConfig F) (state prev : GamepadState) (now : ℕ)
      (layers : List (String × LayerConfig F)) (g : Gamepad F)
      → a is n ≡ false
      → kept n (layer_steps (some (a, layer_a)) state prev now layers g) ≡ kept n g
  unfolding layer_steps
  layer_steps-kept a layer_a state prev now [] g e = refl
  layer_steps-kept a layer_a state prev now ((name, layer) ∷ rest) g e =
      layer_steps-kept a layer_a state prev now rest
        (layer_step (some (a, layer_a)) state prev now name layer g) e
      ∙ layer_step-kept a layer_a state prev now name layer g e

  -- While a layer is active when a report is handled, the report changes nothing that is kept about
  -- any other layer, whatever the triggers do: no press, timeout or toggle of another layer counts.
  pub update_tap_hold-others :
      (state prev : GamepadState) (now : ℕ) (g : Gamepad F) (a : String) (layer : LayerConfig F)
      → get_active_layer g ≡ some (a, layer)
      → a is n ≡ false
      → kept n (update_tap_hold state prev now g) ≡ kept n g
  unfolding update_tap_hold
  update_tap_hold-others state prev now g a layer active e =
      ap (λ o. kept n (layer_steps o state prev now g.config.layers g)) active
      ∙ layer_steps-kept a layer state prev now g.config.layers g e
